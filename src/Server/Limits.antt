-- ===== src/Server/Limits.antt =====
-- The token limits, and the entries that server/opencode.go generates.
use llm_bridge.Config.Types.{GlobalConfig}
use llm_bridge.Config.Env.{positive_or}
use llm_bridge.Discovery.State.{Discovery, RawMessage}
use llm_bridge.Server.OpenCode.{
  ModelMeta, ModelLimit, first_limit, settle, limit_of, or_blank, extract_max_model_len,
  model_entry, entries_from, build_model_entries,
}
use llm_bridge.Base.{
  ℕ, ◌+◌, ◌-◌, ◌^◌, ◌≤◌, ◌<◌, String, ◌≡◌, refl, ap, ◌∙◌, ◌⊎◌, inl, inr, Option, none, some, List,
  [], ◌∷◌, arith, str_eq, str_eq-cases, leb, if◌then◌else◌, Bool-cases, Option-cases, is_some, any,
  Dict, lookup, keys, lookup-insert,
}
use llm_bridge.Base.Int.{ℤ, pos, negsuc, ◌≤ℤ◌, ltb_ℤ, add64, sub64}

sub64_pos : (a b : ℕ) → a < 2 ^ 63 → b ≤ a → sub64 (pos a) (pos b) ≡ pos (a - b)
unfolding sub64
sub64_pos a b h k = ground arith

sub64_neg : (a b : ℕ) → a < b → b ≤ 2 ^ 63 → sub64 (pos a) (pos b) ≡ negsuc (b - a - 1)
unfolding sub64
sub64_neg a b h k = ground arith

sub64_negsuc : (a b : ℕ) → a + b < 2 ^ 63 → sub64 (negsuc a) (pos b) ≡ negsuc (a + b)
unfolding sub64
sub64_negsuc a b h = ground arith

-- Two subtractions that end below zero, without a wrap.
sub64_twice :
    (c o b : ℕ)
    → c < 2 ^ 63
    → c < o + b
    → o + b ≤ 2 ^ 63
    → sub64 (sub64 (pos c) (pos o)) (pos b) ≡ negsuc (o + b - c - 1)
sub64_twice c o b fits short sum = elim (Bool-cases (leb o c)) [
  | inl above ↦
      let first = sub64_pos c o fits (ground arith) in
      let second = sub64_neg (c - o) b (ground arith) (omega arith) in
      rw first (second ∙ ground arith)
  | inr below ↦
      let first = sub64_neg c o (ground arith) (omega arith) in
      let second = sub64_negsuc (o - c - 1) b (ground arith) in rw first (second ∙ ground arith)
]

-- How a context of so many tokens is divided.
pub record IsDivided (context output buffer : ℕ) (l : ModelLimit) : Type 0 where
  pub input_part : ℕ
  pub output_part : ℕ
  pub limit : l ≡ record { context = pos context; input = pos input_part; output = pos output_part }
  pub whole : input_part + output_part ≡ context - buffer
  pub at_most : output_part ≤ output
  pub input_last : (input_part ≡ 0) ⊎ (output_part ≡ output)

limit_of-IsDivided :
    (c o b : ℕ) → c < 2 ^ 63 → o + b ≤ 2 ^ 63 → IsDivided c o b (limit_of (pos c) (pos o) (pos b))
unfolding limit_of settle
limit_of-IsDivided c o b fits sum = elim (Bool-cases (leb (o + b) c)) [
  | inl enough ↦
      let first : sub64 (pos c) (pos o) ≡ pos (c - o) = sub64_pos c o fits (ground arith) in
      let second : sub64 (pos (c - o)) (pos b) ≡ pos (c - o - b) =
        sub64_pos (c - o) b (ground arith) (ground arith) in
      record {
        input_part = c - o - b;
        output_part = o;
        limit = rw (first, second) (ground arith);
        whole = ground arith;
        at_most = omega arith;
        input_last = inr refl;
      }
  | inr short ↦
      let below : sub64 (sub64 (pos c) (pos o)) (pos b) ≡ negsuc (o + b - c - 1) =
        sub64_twice c o b fits (ground arith) sum in
      elim (Bool-cases (leb b c)) [
        | inl some_left ↦
            let rest : sub64 (pos c) (pos b) ≡ pos (c - b) = sub64_pos c b fits (ground arith) in
            record {
              input_part = 0;
              output_part = c - b;
              limit = rw (below, rest) (ground arith);
              whole = omega arith;
              at_most = ground arith;
              input_last = inl refl;
            }
        | inr none_left ↦
            let rest : sub64 (pos c) (pos b) ≡ negsuc (b - c - 1) =
              sub64_neg c b (ground arith) (omega arith) in
            record {
              input_part = 0;
              output_part = 0;
              limit = rw (below, rest) (ground arith);
              whole = ground arith;
              at_most = omega arith;
              input_last = inl refl;
            }
      ]
]

positive_or_pos : (d n : ℕ) → 1 ≤ n → positive_or (pos d) (pos n) ≡ pos n
positive_or_pos d n h = ground arith

-- The limits of a model add up: the output gets what is configured, the input what is left of the
-- context after output and buffer; where the context is too short for both, the input gets nothing
-- and the output what is left after the buffer. The context fits an `int`, and the configured counts
-- are positive and do not overflow together.
pub model_entry-IsDivided :
    (decode : RawMessage → Option ModelMeta) (g : GlobalConfig) (details : Dict RawMessage)
    (name : String) (c o b : ℕ)
    → extract_max_model_len decode (or_blank (lookup name details)) ≡ pos c
    → g.open_code_context_output ≡ pos o
    → g.open_code_context_buffer ≡ pos b
    → c < 2 ^ 63
    → 1 ≤ o
    → 1 ≤ b
    → o + b ≤ 2 ^ 63
    → IsDivided c o b (model_entry decode g details name).limit
unfolding model_entry
model_entry-IsDivided decode g details name c o b e f h fits ho hb sum =
    rw (e, f, h, positive_or_pos 8192 o ho, positive_or_pos 1024 b hb)
      (limit_of-IsDivided c o b fits sum)

-- The metadata's count does not overflow when the generation limit is added to it.
abbrev pub FitsLimit : ModelMeta → Type 0
FitsLimit meta = meta.max_tokens ≤ℤ pos (2 ^ 63 - 3001)

add64-positive : (v : ℤ) → pos 1 ≤ℤ v → v ≤ℤ pos (2 ^ 63 - 3001) → pos 1 ≤ℤ add64 v (pos 3000)
unfolding add64
add64-positive (pos n) h k = ground arith
add64-positive (negsuc n) h k = absurd (ground arith)

first_limit-positive : (meta : ModelMeta) → FitsLimit meta → pos 1 ≤ℤ first_limit meta
unfolding first_limit
first_limit-positive meta h = elim (Bool-cases (ltb_ℤ (pos 0) meta.max_tokens)) [
  | inl e ↦ let k = add64-positive meta.max_tokens (ground arith) h in ground arith
  | inr e ↦ ground arith
]

-- A context length is positive, whatever the metadata hold and also if they cannot be decoded, as
-- long as the count `max_tokens` leaves room for the generation limit in an `int`.
pub extract_max_model_len-positive :
    (decode : RawMessage → Option ModelMeta) (raw : RawMessage)
    → ((meta : ModelMeta) → decode raw ≡ some meta → FitsLimit meta)
    → pos 1 ≤ℤ extract_max_model_len decode raw
unfolding extract_max_model_len
extract_max_model_len-positive decode raw fits = elim (str_eq-cases raw "") [
  | inl (t, e) ↦ rw t (omega arith)
  | inr (t, e) ↦ elim (Option-cases (decode raw)) [
    | inl k ↦ rw (t, k) (omega arith)
    | inr (meta, k) ↦ rw (t, k) (first_limit-positive meta (fits meta k))
  ]
]

lookup-entries_from :
    (decode : RawMessage → Option ModelMeta) (g : GlobalConfig) (details : Dict RawMessage)
    (names : List String) (name : String)
    → lookup name (entries_from decode g details names)
      ≡ (if any (λ n. str_eq n name) names then some (model_entry decode g details name) else none)
unfolding entries_from lookup
lookup-entries_from decode g details [] name = refl
lookup-entries_from decode g details (n ∷ names) name =
    lookup-insert n name _ (entries_from decode g details names) ∙ elim (str_eq-cases n name) [
      | inl (t, e) ↦ rw t (ap some (ap (model_entry decode g details) e))
      | inr (t, e) ↦ rw t (lookup-entries_from decode g details names name)
    ]

is_some-keys :
    {V : Type 0} (name : String) (m : Dict V)
    → any (λ n. str_eq n name) (keys m) ≡ is_some (lookup name m)
unfolding lookup
is_some-keys name [] = refl
is_some-keys name ((key, value) ∷ m) = ground (arith, is_some-keys name m)

-- The generated configuration has an entry for each model that is known and for no other, and the
-- entry depends on the model's metadata and the configuration alone.
pub lookup-build_model_entries :
    (decode : RawMessage → Option ModelMeta) (g : GlobalConfig) (d : Discovery) (name : String)
    → lookup name (build_model_entries decode g d) ≡ (
        if is_some (lookup name d.models)
        then some (model_entry decode g d.model_details name)
        else none)
unfolding build_model_entries
lookup-build_model_entries decode g d name =
    lookup-entries_from decode g d.model_details (keys d.models) name
    ∙ ap (λ b. if b then some (model_entry decode g d.model_details name) else none)
        (is_some-keys name d.models)
