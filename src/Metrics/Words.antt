-- ===== src/Metrics/Words.antt =====
-- How the parser of metrics/metrics.go cuts a line of words.
use llm_bridge.Metrics.Text.{
  is_newline, is_space, is_empty, non_empty, fields, none_of, split_by-append, split_by-plain,
}
use llm_bridge.Server.Comments.{Bytes}
use llm_bridge.Base.{
  ℕ, ◌≡◌, refl, ap, inl, inr, Bool, true, not, ◌&&◌, [], ◌∷◌, ◌++◌, arith, Bool-cases,
}

-- A text without spaces, and not empty.
abbrev pub is_word : Bytes → Bool
is_word text = none_of is_space text && not (is_empty text)

pub and_left : {a : Bool} (b : Bool) → a && b ≡ true → a ≡ true
and_left b h = ground arith

-- The fields of a line that starts with a word and a space.
pub fields-word :
    (sep : ℕ) (word rest : Bytes)
    → is_space sep ≡ true
    → is_word word ≡ true
    → fields (word ++ sep ∷ rest) ≡ word ∷ fields rest
unfolding fields
fields-word sep [] rest k h = cc
fields-word sep (c ∷ cs) rest k h =
    ap non_empty (split_by-append is_space (c ∷ cs) sep rest (and_left _ h) k)

pub fields-one : (word : Bytes) → is_word word ≡ true → fields word ≡ word ∷ []
unfolding fields
fields-one [] h = cc
fields-one (c ∷ cs) h = ap non_empty (split_by-plain is_space (c ∷ cs) (and_left _ h))

newline-is_space : (c : ℕ) → is_newline c ≡ true → is_space c ≡ true
unfolding is_space
newline-is_space c h = ground arith

pub spaceless : (text : Bytes) → none_of is_space text ≡ true → none_of is_newline text ≡ true
spaceless [] h = refl
spaceless (c ∷ cs) h = elim (Bool-cases (is_newline c)) [
  | inl e ↦ absurd (cc (rw (newline-is_space c e) at h))
  | inr e ↦ elim (Bool-cases (is_space c)) [
    | inl k ↦ absurd (cc (rw k at h))
    | inr k ↦ rw e (spaceless cs (rw k at h))
  ]
]
