-- ===== src/Server/Strings.antt =====
-- server/opencode.go: which part of a line `stripLineComment` keeps, for a line of JSON given by its
-- strings and what stands between them.
use llm_bridge.Server.Comments.{
  Bytes, Scan, scan_start, scan_next, opens_comment, strip_from, strip_line_comment,
}
use llm_bridge.Base.{
  ℕ, zero, suc, ◌≤◌, ◌<◌, ◌≡◌, refl, sym, ap, subst, ◌∙◌, ◌⊎◌, inl, inr, true, false, ◌&&◌, [], ◌∷◌,
  ◌++◌, append_assoc, append-nil, arith, ◌==◌, Bool-cases, length,
}

-- The inside of a string: characters other than a quote and a backslash (92), and pairs of a backslash
-- and any character.
pub data Body : Bytes → Type 0 where
  done : Body []
  char :
      (c : ℕ) {rest : Bytes} → (c == b'"') ≡ false → (c == 92) ≡ false → Body rest → Body (c ∷ rest)
  escaped : (c : ℕ) {rest : Bytes} → Body rest → Body (92 ∷ c ∷ rest)

abbrev pub StartsComment : Bytes → Type 0
StartsComment [] = ⊥
StartsComment (c ∷ []) = ⊥
StartsComment (c ∷ d ∷ rest) = (c ≡ b'/') × (d ≡ b'/')

-- A text without a comment, which this is after: strings, closed by a quote, and characters between
-- them at which no two slashes stand; a string that is not closed, if nothing is after it.
pub data Code (after : Bytes) : Bytes → Type 0 where
  end : Code after []
  between :
      (c : ℕ) {rest : Bytes}
      → (c == b'"') ≡ false
      → ¬ StartsComment (c ∷ (rest ++ after))
      → Code after rest
      → Code after (c ∷ rest)
  literal :
      {body rest : Bytes} → Body body → Code after rest → Code after (b'"' ∷ (body ++ b'"' ∷ rest))
  unclosed : {body : Bytes} → Body body → after ≡ [] → Code after (b'"' ∷ body)
  unclosed_escape : {body : Bytes} → Body body → after ≡ [] → Code after (b'"' ∷ (body ++ 92 ∷ []))

-- What may be after it: nothing, or a comment.
pub data Tail : Bytes → Type 0 where
  nothing : Tail []
  comment : (rest : Bytes) → Tail (b'/' ∷ b'/' ∷ rest)

abbrev inside : Scan
inside = record { in_string = true; escape = false }

scan_next-plain : (c : ℕ) → (c == b'"') ≡ false → scan_next c scan_start ≡ scan_start
unfolding scan_next
scan_next-plain c h = elim (Bool-cases (c == 92)) [
  | inl e ↦ rw (e, h) refl
  | inr e ↦ rw (e, h) refl
]

scan_next-inside : (c : ℕ) → (c == b'"') ≡ false → (c == 92) ≡ false → scan_next c inside ≡ inside
unfolding scan_next
scan_next-inside c h k = rw (h, k) refl

opens_comment-plain :
    (c : ℕ) (rest : Bytes) → ¬ StartsComment (c ∷ rest) → opens_comment c rest scan_start ≡ false
unfolding opens_comment
opens_comment-plain c [] h = ground arith
opens_comment-plain c (d ∷ rest) h = elim (Bool-cases (opens_comment c (d ∷ rest) scan_start)) [
  | inl t ↦ absurd (h (ground (arith, t), ground (arith, t)))
  | inr f ↦ f
]

strip_from-Body :
    {body : Bytes}
    → Body body
    → (tail : Bytes) → strip_from inside (body ++ tail) ≡ body ++ strip_from inside tail
unfolding strip_from opens_comment scan_next
strip_from-Body done tail = refl
strip_from-Body (char c {rest} h k b) tail =
    ap (λ s. c ∷ strip_from s (rest ++ tail)) (scan_next-inside c h k)
    ∙ ap (λ t. c ∷ t) (strip_from-Body b tail)
strip_from-Body (escaped c b) tail = ap (λ t. 92 ∷ c ∷ t) (strip_from-Body b tail)

strip_from-plain :
    (c : ℕ) (rest : Bytes)
    → (c == b'"') ≡ false
    → ¬ StartsComment (c ∷ rest)
    → strip_from scan_start (c ∷ rest) ≡ c ∷ strip_from scan_start rest
unfolding strip_from
strip_from-plain c rest h n = rw (opens_comment-plain c rest n, scan_next-plain c h) refl

-- A string that ends, and what is kept of the rest.
strip_from-literal :
    {body : Bytes} (rest : Bytes)
    → Body body
    → strip_from scan_start (b'"' ∷ (body ++ b'"' ∷ rest))
      ≡ b'"' ∷ (body ++ b'"' ∷ strip_from scan_start rest)
unfolding strip_from opens_comment scan_next
strip_from-literal rest b = ap (λ t. b'"' ∷ t) (strip_from-Body b (b'"' ∷ rest))

strip_from-unclosed :
    {body : Bytes} → Body body → strip_from scan_start (b'"' ∷ (body ++ [])) ≡ b'"' ∷ body
unfolding strip_from opens_comment scan_next
strip_from-unclosed {body} b = ap (λ t. b'"' ∷ t) (strip_from-Body b [] ∙ append-nil body)

strip_from-unclosed_escape :
    {body : Bytes}
    → Body body
    → strip_from scan_start (b'"' ∷ ((body ++ 92 ∷ []) ++ [])) ≡ b'"' ∷ (body ++ 92 ∷ [])
unfolding strip_from opens_comment scan_next
strip_from-unclosed_escape {body} b =
    ap (λ t. b'"' ∷ strip_from inside t) (append-nil (body ++ 92 ∷ []))
    ∙ ap (λ t. b'"' ∷ t) (strip_from-Body b (92 ∷ []))

strip_from-Code :
    {after kept : Bytes}
    → Code after kept
    → Tail after
    → strip_from scan_start (kept ++ after) ≡ kept
unfolding strip_from opens_comment
strip_from-Code end nothing = refl
strip_from-Code end (comment rest) = refl
strip_from-Code {after} (between c {rest} h n k) t =
    strip_from-plain c (rest ++ after) h n ∙ ap (λ x. c ∷ x) (strip_from-Code k t)
strip_from-Code {after} (literal {body} {rest} b k) t =
    ap (λ x. strip_from scan_start (b'"' ∷ x)) (append_assoc body (b'"' ∷ rest) after)
    ∙ strip_from-literal (rest ++ after) b
    ∙ ap (λ x. b'"' ∷ (body ++ b'"' ∷ x)) (strip_from-Code k t)
strip_from-Code {after} (unclosed {body} b e) t =
    ap (λ x. strip_from scan_start (b'"' ∷ (body ++ x))) e ∙ strip_from-unclosed b
strip_from-Code {after} (unclosed_escape {body} b e) t =
    ap (λ x. strip_from scan_start (b'"' ∷ ((body ++ 92 ∷ []) ++ x))) e
    ∙ strip_from-unclosed_escape b

-- How the inside of a string goes on: it is closed, or it goes to the end, or to a backslash there.
data Inside (text : Bytes) : Type 0 where
  closed :
      (body rest : Bytes)
      → Body body
      → text ≡ body ++ b'"' ∷ rest
      → length rest < length text
      → Inside text
  open_end : Body text → Inside text
  open_escape : (body : Bytes) → Body body → text ≡ body ++ 92 ∷ [] → Inside text

char-Inside :
    (c : ℕ) {text : Bytes}
    → (c == b'"') ≡ false
    → (c == 92) ≡ false
    → Inside text
    → Inside (c ∷ text)
char-Inside c h k (closed body rest b e l) =
    closed (c ∷ body) rest (char c h k b) (ap (λ t. c ∷ t) e) (omega arith)
char-Inside c h k (open_end b) = open_end (char c h k b)
char-Inside c h k (open_escape body b e) = open_escape (c ∷ body) (char c h k b) (ap (λ t. c ∷ t) e)

escaped-Inside : (c : ℕ) {text : Bytes} → Inside text → Inside (92 ∷ c ∷ text)
escaped-Inside c (closed body rest b e l) =
    closed (92 ∷ c ∷ body) rest (escaped c b) (ap (λ t. 92 ∷ c ∷ t) e) (omega arith)
escaped-Inside c (open_end b) = open_end (escaped c b)
escaped-Inside c (open_escape body b e) =
    open_escape (92 ∷ c ∷ body) (escaped c b) (ap (λ t. 92 ∷ c ∷ t) e)

Inside-cases : (text : Bytes) → Inside text
Inside-cases [] = open_end done
Inside-cases (c ∷ []) = elim (Bool-cases (c == b'"')) [
  | inl e ↦
      let quote : c ≡ b'"' = ground (arith, e) in
      subst (λ x. Inside (x ∷ [])) (sym quote) (closed [] [] done refl (omega arith))
  | inr e ↦ elim (Bool-cases (c == 92)) [
    | inl k ↦
        let slash : c ≡ 92 = ground (arith, k) in
        subst (λ x. Inside (x ∷ [])) (sym slash) (open_escape [] done refl)
    | inr k ↦ open_end (char c e k done)
  ]
]
Inside-cases (c ∷ d ∷ cs) = elim (Bool-cases (c == b'"')) [
  | inl e ↦
      let quote : c ≡ b'"' = ground (arith, e) in
      subst (λ x. Inside (x ∷ d ∷ cs)) (sym quote) (closed [] (d ∷ cs) done refl (omega arith))
  | inr e ↦ elim (Bool-cases (c == 92)) [
    | inl k ↦
        let slash : c ≡ 92 = ground (arith, k) in
        subst (λ x. Inside (x ∷ d ∷ cs)) (sym slash) (escaped-Inside d (Inside-cases cs))
    | inr k ↦ char-Inside c e k (Inside-cases (d ∷ cs))
  ]
]

-- The line is a text without a comment, which is kept, and what is after it: nothing, or a comment.
pub record IsCut (line kept : Bytes) : Type 0 where
  pub dropped : Bytes
  pub parts : line ≡ kept ++ dropped
  pub code : Code dropped kept
  pub tail : Tail dropped

between-IsCut :
    (c : ℕ) (rest kept : Bytes)
    → (c == b'"') ≡ false
    → ¬ StartsComment (c ∷ rest)
    → IsCut rest kept
    → IsCut (c ∷ rest) (c ∷ kept)
between-IsCut c rest kept h n k = record {
  dropped = k.dropped;
  parts = ap (λ t. c ∷ t) k.parts;
  code = between c h (subst (λ t. ¬ StartsComment (c ∷ t)) k.parts n) k.code;
  tail = k.tail;
}

literal-IsCut :
    {body : Bytes} (rest kept : Bytes)
    → Body body
    → IsCut rest kept
    → IsCut (b'"' ∷ (body ++ b'"' ∷ rest)) (b'"' ∷ (body ++ b'"' ∷ kept))
literal-IsCut {body} rest kept b k = record {
  dropped = k.dropped;
  parts =
      ap (λ t. b'"' ∷ (body ++ b'"' ∷ t)) k.parts
      ∙ ap (λ t. b'"' ∷ t) (sym (append_assoc body (b'"' ∷ kept) k.dropped));
  code = literal b k.code;
  tail = k.tail;
}

comment_cases : (c : ℕ) (rest : Bytes) → Tail (c ∷ rest) ⊎ (¬ StartsComment (c ∷ rest))
comment_cases c [] = inr (λ h. h)
comment_cases c (d ∷ rest) = elim (Bool-cases ((c == b'/') && (d == b'/'))) [
  | inl e ↦
      let one : c ≡ b'/' = ground (arith, e) in
      let two : d ≡ b'/' = ground (arith, e) in
      inl (
        subst (λ x. Tail (x ∷ d ∷ rest)) (sym one)
          (subst (λ y. Tail (b'/' ∷ y ∷ rest)) (sym two) (comment rest)))
  | inr e ↦ inr (λ h. let (a, b) = h in ground (arith, e, a, b))
]

cut : (fuel : ℕ) (line : Bytes) → length line ≤ fuel → (kept : Bytes) × IsCut line kept
cut fuel [] l = ([], record { dropped = []; parts = refl; code = end; tail = nothing })
cut zero (c ∷ rest) l = absurd (omega arith)
cut (suc fuel) (c ∷ rest) l = elim (Bool-cases (c == b'"')) [
  | inl e ↦
      let quote : c ≡ b'"' = ground (arith, e) in
      let cut_string : (kept : Bytes) × IsCut (b'"' ∷ rest) kept = elim (Inside-cases rest) [
        | closed body tail b parts shorter ↦
            let (kept, k) = cut fuel tail (omega arith) in
            (
              b'"' ∷ (body ++ b'"' ∷ kept),
              subst (λ t. IsCut (b'"' ∷ t) (b'"' ∷ (body ++ b'"' ∷ kept))) (sym parts)
                  (literal-IsCut tail kept b k),
            )
        | open_end b ↦ (b'"' ∷ rest, whole (b'"' ∷ rest) (unclosed b refl))
        | open_escape body b parts ↦ (
          b'"' ∷ rest,
          whole (b'"' ∷ rest)
              (subst (λ t. Code [] (b'"' ∷ t)) (sym parts) (unclosed_escape b refl)),
        )
      ] in
      subst (λ x. (kept : Bytes) × IsCut (x ∷ rest) kept) (sym quote) cut_string
  | inr e ↦ elim (comment_cases c rest) [
    | inl t ↦ ([], record { dropped = c ∷ rest; parts = refl; code = end; tail = t })
    | inr n ↦
        let (kept, k) = cut fuel rest (omega arith) in (c ∷ kept, between-IsCut c rest kept e n k)
  ]
]
  where
    whole : (line : Bytes) → Code [] line → IsCut line line
    whole line k = record { dropped = []; parts = sym (append-nil line); code = k; tail = nothing }

-- `stripLineComment` keeps what stands before the first comment of a line, and drops the comment: for
-- every line, what is kept has no comment outside its strings, and what is dropped is nothing, or two
-- slashes outside every string and what follows. Two slashes in a string are kept, also after an
-- escaped quote; a string that is not closed goes to the end of the line.
pub strip_line_comment-IsCut : (line : Bytes) → IsCut line (strip_line_comment line)
unfolding strip_line_comment
strip_line_comment-IsCut line =
    let (kept, k) = cut (length line) line (omega arith) in
    let same : strip_from scan_start line ≡ kept =
      ap (strip_from scan_start) k.parts ∙ strip_from-Code k.code k.tail in
    subst (λ x. IsCut line x) (sym same) k
