-- ===== src/Metrics/Text.antt =====
-- metrics/metrics.go: how `parsePrometheus` cuts a text into lines and a line into fields, with
-- `strings.Split`, `strings.TrimSpace` and `strings.Fields`. A text is the list of its characters.
use llm_bridge.Server.Comments.{Bytes}
use llm_bridge.Metrics.Collector.{Reals, ServerMetrics}
use llm_bridge.Metrics.Parser.{Floats, parse_prometheus}
use llm_bridge.Base.{
  ℕ, ◌≡◌, refl, inl, inr, Bool, true, false, not, ◌&&◌, ◌||◌, List, [], ◌∷◌, ◌++◌, map, arith, leb,
  ◌==◌, if◌then◌else◌, Bool-cases,
}

abbrev pub with_first : ℕ → List Bytes → List Bytes
with_first c [] = (c ∷ []) ∷ []
with_first c (piece ∷ pieces) = (c ∷ piece) ∷ pieces

-- The pieces between the separators, empty ones included; there is always one.
unfoldable pub split_by : (ℕ → Bool) → Bytes → List Bytes
split_by sep [] = [] ∷ []
split_by sep (c ∷ cs) =
    let pieces = split_by sep cs in if sep c then [] ∷ pieces else with_first c pieces

abbrev pub is_newline : ℕ → Bool
is_newline c = c == 10

-- `unicode.IsSpace`.
unfoldable pub is_space : ℕ → Bool
is_space c =
    (leb 9 c && leb c 13)
    || (c == 32)
    || (c == 0x85)
    || (c == 0xA0)
    || (c == 0x1680)
    || (leb 0x2000 c && leb c 0x200A)
    || (c == 0x2028)
    || (c == 0x2029)
    || (c == 0x202F)
    || (c == 0x205F)
    || (c == 0x3000)

abbrev pub is_empty : Bytes → Bool
is_empty [] = true
is_empty (c ∷ cs) = false

abbrev pub non_empty : List Bytes → List Bytes
non_empty [] = []
non_empty ([] ∷ pieces) = non_empty pieces
non_empty ((c ∷ cs) ∷ pieces) = (c ∷ cs) ∷ non_empty pieces

-- The pieces between spaces that are not empty. Spaces at the ends make no field, so the line is
-- trimmed with it.
unfoldable pub fields : Bytes → List Bytes
unfolding split_by is_space
fields line = non_empty (split_by is_space line)

unfoldable pub text_fields : Bytes → List (List Bytes)
unfolding split_by fields
text_fields body = map fields (split_by is_newline body)

-- `parsePrometheus`, from the text on.
unfoldable pub parse_text : (reals : Reals) → Floats reals → Bytes → ServerMetrics reals
parse_text reals floats body = parse_prometheus reals floats (text_fields body)

-- None of the characters is such a one.
abbrev pub none_of : (ℕ → Bool) → Bytes → Bool
none_of p [] = true
none_of p (c ∷ cs) = not (p c) && none_of p cs

pub split_by-append :
    (sep : ℕ → Bool) (xs : Bytes) (c : ℕ) (ys : Bytes)
    → none_of sep xs ≡ true
    → sep c ≡ true
    → split_by sep (xs ++ c ∷ ys) ≡ xs ∷ split_by sep ys
unfolding split_by
split_by-append sep [] c ys clean k = rw k
split_by-append sep (x ∷ xs) c ys clean k = elim (Bool-cases (sep x)) [
  | inl e ↦ absurd (cc (rw e at clean))
  | inr e ↦ rw (e, split_by-append sep xs c ys (ground (arith, clean, e)) k)
]

pub split_by-plain :
    (sep : ℕ → Bool) (xs : Bytes) → none_of sep xs ≡ true → split_by sep xs ≡ xs ∷ []
unfolding split_by
split_by-plain sep [] clean = refl
split_by-plain sep (x ∷ xs) clean = elim (Bool-cases (sep x)) [
  | inl e ↦ absurd (cc (rw e at clean))
  | inr e ↦ rw (e, split_by-plain sep xs (ground (arith, clean, e)))
]

pub none_of-append :
    (p : ℕ → Bool) (xs ys : Bytes)
    → none_of p xs ≡ true
    → none_of p ys ≡ true
    → none_of p (xs ++ ys) ≡ true
none_of-append p [] ys h k = k
none_of-append p (x ∷ xs) ys h k = elim (Bool-cases (p x)) [
  | inl e ↦ absurd (cc (rw e at h))
  | inr e ↦ rw e (none_of-append p xs ys (ground (arith, h, e)) k)
]
