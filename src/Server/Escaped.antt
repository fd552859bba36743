-- ===== src/Server/Escaped.antt =====
-- Escaping a server id and reading it back from the path of server/server.go's admin handlers.
use llm_bridge.Config.Store.{Yaml, WriteOutcome}
use llm_bridge.Metrics.Collector.{Reals}
use llm_bridge.Server.Comments.{Bytes}
use llm_bridge.Server.Admin.{ServerPatch, ServerState, handle_update_server, handle_delete_server}
use llm_bridge.Server.Listing.{handle_get_server}
use llm_bridge.Server.Ident.{
  hex_value, then_byte, path_unescape, ident, ident_from, ident_of, get_with, get_server_at,
  update_with, update_server_at, delete_with, delete_server_at,
}
use llm_bridge.Metrics.Parser.{same_bytes}
use llm_bridge.Base.{
  ℕ, ◌+◌, ◌/◌, ◌%◌, ◌<◌, String, ◌≡◌, refl, ap, ◌∙◌, inl, inr, Bool, true, false, ◌&&◌, any, Option,
  none, some, [], ◌∷◌, arith, ltb, ◌==◌, if◌then◌else◌, Bool-cases, All,
}

abbrev pub hex_digit : ℕ → ℕ
hex_digit d = if ltb d 10 then b'0' + d else 55 + d

-- What a client sends for an id: the bytes that it keeps, and the others escaped.
abbrev pub path_escape : (ℕ → Bool) → Bytes → Bytes
path_escape keep [] = []
path_escape keep (c ∷ cs) =
    if keep c
    then c ∷ path_escape keep cs
    else b'%' ∷ hex_digit (c / 16) ∷ hex_digit (c % 16) ∷ path_escape keep cs

hex_value-hex_digit : (d : ℕ) → d < 16 → hex_value (hex_digit d) ≡ some d
unfolding hex_value
hex_value-hex_digit d h = ground arith

path_unescape-plain :
    (c : ℕ) (cs : Bytes)
    → (c == b'%') ≡ false
    → path_unescape (c ∷ cs) ≡ then_byte c (path_unescape cs)
unfolding path_unescape
path_unescape-plain c [] h = rw h
path_unescape-plain c (a ∷ []) h = rw h
path_unescape-plain c (a ∷ b ∷ cs) h = rw h

kept_other : (d : ℕ) (keep : ℕ → Bool) (c : ℕ) → keep d ≡ false → keep c ≡ true → (c == d) ≡ false
kept_other d keep c k e = elim (Bool-cases (c == d)) [
  | inl t ↦ let same : c ≡ d = ground (arith, t) in absurd (cc (ap keep same))
  | inr t ↦ t
]

path_unescape-path_escape :
    (keep : ℕ → Bool) (id : Bytes)
    → keep b'%' ≡ false
    → All (λ c. c < 256) id
    → path_unescape (path_escape keep id) ≡ some id
unfolding path_unescape
path_unescape-path_escape keep [] k h = refl
path_unescape-path_escape keep (c ∷ cs) k (b, bs) = elim (Bool-cases (keep c)) [
  | inl e ↦
      let plain : (c == b'%') ≡ false = kept_other b'%' keep c k e in
      rw e (
        path_unescape-plain c (path_escape keep cs) plain
        ∙ ap (then_byte c) (path_unescape-path_escape keep cs k bs))
  | inr e ↦
      rw
        (
          e,
          hex_value-hex_digit (c / 16) (omega arith),
          hex_value-hex_digit (c % 16) (omega arith),
          path_unescape-path_escape keep cs k bs,
        )
        (ap (λ (x : ℕ). some (x ∷ cs)) (omega arith))
]

ident_of-path_unescape :
    (raw : Bytes) (c : ℕ) (cs : Bytes)
    → path_unescape raw ≡ some (c ∷ cs)
    → ident_of raw ≡ ident (c ∷ cs)
unfolding ident_of path_unescape
ident_of-path_unescape [] c cs h = cc
ident_of-path_unescape (x ∷ raw) c cs h = ap ident_from h

ident_of-path_escape :
    (keep : ℕ → Bool) (c : ℕ) (cs : Bytes)
    → keep b'%' ≡ false
    → All (λ d. d < 256) (c ∷ cs)
    → ident_of (path_escape keep (c ∷ cs)) ≡ ident (c ∷ cs)
ident_of-path_escape keep c cs k b =
    ident_of-path_unescape (path_escape keep (c ∷ cs)) c cs
      (path_unescape-path_escape keep (c ∷ cs) k b)

-- A query begins at a question mark.
abbrev pub cut_query : Bytes → Bytes
cut_query [] = []
cut_query (c ∷ cs) = if c == b'?' then [] else c ∷ cut_query cs

-- net/url decodes the path, and keeps the text as it came only if its own escape of what it has decoded
-- is another text; chi takes the kept text, or else what is decoded. A path that does not decode is
-- refused. The part of the path before the wildcard has nothing to escape.
abbrev pub kept_or_decoded : (ℕ → Bool) → Bytes → Option Bytes → Option Bytes
kept_or_decoded keeps text none = none
kept_or_decoded keeps text (some path) =
    some (if same_bytes (path_escape keeps path) text then path else text)

-- What chi gives for the wildcard, for the end of a request's target; `keeps` says which bytes net/url
-- leaves in a path.
abbrev pub wildcard_of : (ℕ → Bool) → Bytes → Option Bytes
wildcard_of keeps target =
    let text = cut_query target in kept_or_decoded keeps text (path_unescape text)

hex_digit_ne : (d : ℕ) → d < 16 → (hex_digit d == b'?') ≡ false
hex_digit_ne d h = ground arith

cut_query-path_escape :
    (keep : ℕ → Bool) (id : Bytes)
    → keep b'?' ≡ false
    → All (λ c. c < 256) id
    → cut_query (path_escape keep id) ≡ path_escape keep id
cut_query-path_escape keep [] k b = refl
cut_query-path_escape keep (c ∷ cs) k (b, bs) = elim (Bool-cases (keep c)) [
  | inl e ↦ rw (e, kept_other b'?' keep c k e, cut_query-path_escape keep cs k bs)
  | inr e ↦ rw (
    e,
    hex_digit_ne (c / 16) (omega arith),
    hex_digit_ne (c % 16) (omega arith),
    cut_query-path_escape keep cs k bs,
  )
]

and_false : (b : Bool) → b && false ≡ false
and_false true = refl
and_false false = refl

and_and_false : (b c : Bool) → b && (c && false) ≡ false
and_and_false true c = and_false c
and_and_false false c = refl

flip_ne : (c d : ℕ) → (c == d) ≡ false → (d == c) ≡ false
flip_ne c d h = ground (arith, h)

-- Where one escape keeps slashes and the other does not, they differ on a text with a slash.
path_escape-apart :
    (keeps keep : ℕ → Bool) (id : Bytes)
    → keeps b'/' ≡ true
    → keeps b'%' ≡ false
    → keep b'/' ≡ false
    → keep b'%' ≡ false
    → any (λ c. c == b'/') id ≡ true
    → same_bytes (path_escape keeps id) (path_escape keep id) ≡ false
path_escape-apart keeps keep [] a b c d h = cc
path_escape-apart keeps keep (x ∷ xs) a b c d h = elim (Bool-cases (x == b'/')) [
  | inl e ↦
      let slash : x ≡ b'/' = ground (arith, e) in
      let kx : keeps x ≡ true = ap keeps slash ∙ a in
      let nx : keep x ≡ false = ap keep slash ∙ c in rw (kx, nx, kept_other b'%' keeps x b kx) refl
  | inr e ↦
      let rest = path_escape-apart keeps keep xs a b c d (rw e at h) in
      elim (Bool-cases (keeps x)) [
        | inl k ↦ elim (Bool-cases (keep x)) [
          | inl l ↦ rw (k, l, rest) (and_false (x == x))
          | inr l ↦ rw (k, l, kept_other b'%' keeps x b k) refl
        ]
        | inr k ↦ elim (Bool-cases (keep x)) [
          | inl l ↦ rw (k, l, flip_ne x b'%' (kept_other b'%' keep x d l)) refl
          | inr l ↦
              rw (k, l, rest)
                (and_and_false (hex_digit (x / 16) == hex_digit (x / 16))
                  (hex_digit (x % 16) == hex_digit (x % 16)))
        ]
      ]
]

-- An id with a slash, as every URL has one, that a client escapes, the slashes, the percent signs and
-- the question marks with it and other bytes as it will: chi gives the handlers what the client sent,
-- and the three do for it what they do for the server of that name. net/url keeps slashes in a path and
-- escapes percent signs.
pub handlers-path_escape :
    (keeps keep : ℕ → Bool) (c : ℕ) (cs : Bytes) (text_of : Bytes → String) (reals : Reals)
    (yaml : Yaml) (parses : String → Bool) (w : WriteOutcome) (u : ServerPatch)
    (s : ServerState reals)
    → keeps b'/' ≡ true
    → keeps b'%' ≡ false
    → keep b'/' ≡ false
    → keep b'%' ≡ false
    → keep b'?' ≡ false
    → any (λ d. d == b'/') (c ∷ cs) ≡ true
    → All (λ d. d < 256) (c ∷ cs)
    → let target = path_escape keep (c ∷ cs) in
      let id = text_of (c ∷ cs) in
      (wildcard_of keeps target ≡ some target)
      × ((get_server_at text_of target s.store.config s.discovery s.pool).1
          ≡ handle_get_server id s.store.config s.discovery s.pool)
      × (update_server_at text_of reals yaml parses target w (some u) s
          ≡ handle_update_server reals yaml parses w id u s)
      × (delete_server_at text_of reals yaml parses target w s
          ≡ handle_delete_server reals yaml parses w id s)
unfolding get_server_at update_server_at delete_server_at
handlers-path_escape keeps keep c cs text_of reals yaml parses w u s ks kp ns np nq h b =
    let e = ident_of-path_escape keep c cs np b in
    let whole = cut_query-path_escape keep (c ∷ cs) nq b in
    (
      ap (λ t. kept_or_decoded keeps t (path_unescape t)) whole
          ∙ ap (kept_or_decoded keeps (path_escape keep (c ∷ cs)))
              (path_unescape-path_escape keep (c ∷ cs) np b)
          ∙ ap (λ (x : Bool). some (if x then c ∷ cs else path_escape keep (c ∷ cs)))
              (path_escape-apart keeps keep (c ∷ cs) ks kp ns np h),
      ap (λ i. (get_with text_of i s.store.config s.discovery s.pool).1) e,
      ap (λ i. update_with text_of reals yaml parses i w (some u) s) e,
      ap (λ i. delete_with text_of reals yaml parses i w s) e,
    )
