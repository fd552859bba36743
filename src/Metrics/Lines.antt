-- ===== src/Metrics/Lines.antt =====
-- The lines of a text of metrics, as vLLM exports them, and what `parsePrometheus` of
-- metrics/metrics.go reads off the text.
use llm_bridge.Metrics.Collector.{Reals, no_metrics}
use llm_bridge.Metrics.Parser.{
  strip_labels, same_bytes, Floats, Known, running, waiting, kv_cache, prompt_tokens, gen_tokens,
  unknown, known_of, is_comment,
}
use llm_bridge.Metrics.Parsed.{sample, is_known, value_of, last_value, rounded, in_percent, or_else}
use llm_bridge.Metrics.Text.{is_newline, is_space, parse_text, none_of}
use llm_bridge.Metrics.Words.{is_word}
use llm_bridge.Metrics.Printed.{print_text, HasWords, parse_text-print_text}
use llm_bridge.Server.Comments.{Bytes}
use llm_bridge.Base.Text.{runes}
use llm_bridge.Base.{
  ℕ, ◌≡◌, refl, sym, subst, ◌∙◌, inl, inr, Bool, true, false, Option, none, some, List, [], ◌∷◌,
  ◌++◌, map, arith, ◌==◌, if◌then◌else◌, Bool-cases, Option-cases, All,
}
use llm_bridge.Base.Int.{pos}

-- The five metrics that are read, and their names.
pub data Metric : Type 0 where
  requests_running requests_waiting kv_cache_usage prompt_total generation_total : Metric

abbrev pub metric_name : Metric → Bytes
metric_name requests_running = runes "vllm:num_requests_running"
metric_name requests_waiting = runes "vllm:num_requests_waiting"
metric_name kv_cache_usage = runes "vllm:kv_cache_usage_perc"
metric_name prompt_total = runes "vllm:prompt_tokens_total"
metric_name generation_total = runes "vllm:generation_tokens_total"

-- A comment, with its words; or a sample, with its name, its labels in braces, and its value.
pub data Line : Type 0 where
  comment : Bytes → List Bytes → Line
  sample_line : Bytes → Option Bytes → Bytes → Line

abbrev pub in_braces : Option Bytes → Bytes
in_braces none = []
in_braces (some labels) = b'{' ∷ labels ++ b'}' ∷ []

abbrev pub words_of : Line → List Bytes
words_of (comment word words) = (b'#' ∷ word) ∷ words
words_of (sample_line name labels value) = (name ++ in_braces labels) ∷ value ∷ []

-- The name of a metric: neither a comment, nor with a brace in it.
abbrev pub NotHash : Bytes → Type 0
NotHash [] = Unit
NotHash (c ∷ cs) = (c == b'#') ≡ false

abbrev pub IsName : Bytes → Type 0
IsName name = (none_of (λ c. c == b'{') name ≡ true) × NotHash name

abbrev pub IsLine : Line → Type 0
IsLine (comment word words) = HasWords ((b'#' ∷ word) ∷ words)
IsLine (sample_line name labels value) =
    IsName name × (is_word (name ++ in_braces labels) ≡ true) × (is_word value ≡ true)

abbrev known : Metric → Known
known requests_running = running
known requests_waiting = waiting
known kv_cache_usage = kv_cache
known prompt_total = prompt_tokens
known generation_total = gen_tokens

strip_labels-name :
    (name : Bytes) (labels : Option Bytes)
    → none_of (λ c. c == b'{') name ≡ true
    → strip_labels (name ++ in_braces labels) ≡ name
unfolding strip_labels
strip_labels-name [] none h = refl
strip_labels-name [] (some labels) h = refl
strip_labels-name (c ∷ name) labels h = elim (Bool-cases (c == b'{')) [
  | inl e ↦ absurd (cc (rw e at h))
  | inr e ↦ rw (e, strip_labels-name name labels (ground (arith, h, e)))
]

same_bytes-eq : (xs ys : Bytes) → same_bytes xs ys ≡ true → xs ≡ ys
same_bytes-eq [] [] h = refl
same_bytes-eq [] (y ∷ ys) h = cc
same_bytes-eq (x ∷ xs) [] h = cc
same_bytes-eq (x ∷ xs) (y ∷ ys) h = elim (Bool-cases (x == y)) [
  | inl e ↦
      let head : x ≡ y = ground (arith, e) in
      let tail = same_bytes-eq xs ys (rw e at h) in cc (head, tail)
  | inr e ↦ absurd (cc (rw e at h))
]

-- The table of names against the switch, one metric against another.
known_closed :
    (j k : Metric)
    → is_known (known_of (metric_name j)) (known k) ≡ same_bytes (metric_name j) (metric_name k)
unfolding known_of
known_closed requests_running requests_running = refl
known_closed requests_running requests_waiting = refl
known_closed requests_running kv_cache_usage = refl
known_closed requests_running prompt_total = refl
known_closed requests_running generation_total = refl
known_closed requests_waiting requests_running = refl
known_closed requests_waiting requests_waiting = refl
known_closed requests_waiting kv_cache_usage = refl
known_closed requests_waiting prompt_total = refl
known_closed requests_waiting generation_total = refl
known_closed kv_cache_usage requests_running = refl
known_closed kv_cache_usage requests_waiting = refl
known_closed kv_cache_usage kv_cache_usage = refl
known_closed kv_cache_usage prompt_total = refl
known_closed kv_cache_usage generation_total = refl
known_closed prompt_total requests_running = refl
known_closed prompt_total requests_waiting = refl
known_closed prompt_total kv_cache_usage = refl
known_closed prompt_total prompt_total = refl
known_closed prompt_total generation_total = refl
known_closed generation_total requests_running = refl
known_closed generation_total requests_waiting = refl
known_closed generation_total kv_cache_usage = refl
known_closed generation_total prompt_total = refl
known_closed generation_total generation_total = refl

known_apart :
    (k : Metric) (name : Bytes)
    → same_bytes name (metric_name requests_running) ≡ false
    → same_bytes name (metric_name requests_waiting) ≡ false
    → same_bytes name (metric_name kv_cache_usage) ≡ false
    → same_bytes name (metric_name prompt_total) ≡ false
    → same_bytes name (metric_name generation_total) ≡ false
    → false ≡ same_bytes name (metric_name k)
known_apart requests_running name a b c d e = sym a
known_apart requests_waiting name a b c d e = sym b
known_apart kv_cache_usage name a b c d e = sym c
known_apart prompt_total name a b c d e = sym d
known_apart generation_total name a b c d e = sym e

unknown_apart : (k : Metric) (b : Bool) → false ≡ b → is_known unknown (known k) ≡ b
unknown_apart requests_running b h = h
unknown_apart requests_waiting b h = h
unknown_apart kv_cache_usage b h = h
unknown_apart prompt_total b h = h
unknown_apart generation_total b h = h

known_of-metric_name :
    (k : Metric) (name : Bytes)
    → is_known (known_of name) (known k) ≡ same_bytes name (metric_name k)
unfolding known_of
known_of-metric_name k name =
    let same = λ (j : Metric) (e : same_bytes name (metric_name j) ≡ true).
      subst (λ n. is_known (known_of n) (known k) ≡ same_bytes n (metric_name k))
        (sym (same_bytes-eq name (metric_name j) e)) (known_closed j k) in
    elim (Bool-cases (same_bytes name (metric_name requests_running))) [
      | inl t ↦ same requests_running t
      | inr a ↦ elim (Bool-cases (same_bytes name (metric_name requests_waiting))) [
        | inl t ↦ same requests_waiting t
        | inr b ↦ elim (Bool-cases (same_bytes name (metric_name kv_cache_usage))) [
          | inl t ↦ same kv_cache_usage t
          | inr c ↦ elim (Bool-cases (same_bytes name (metric_name prompt_total))) [
            | inl t ↦ same prompt_total t
            | inr d ↦ elim (Bool-cases (same_bytes name (metric_name generation_total))) [
              | inl t ↦ same generation_total t
              | inr e ↦
                  rw (a, b, c, d, e)
                    (unknown_apart k (same_bytes name (metric_name k))
                      (known_apart k name a b c d e))
            ]
          ]
        ]
      ]
    ]

is_comment-name :
    (name : Bytes) (labels : Option Bytes)
    → NotHash name
    → is_comment (name ++ in_braces labels) ≡ false
is_comment-name [] none h = refl
is_comment-name [] (some labels) h = refl
is_comment-name (c ∷ name) labels h = h

words_of-HasWords : (line : Line) → IsLine line → HasWords (words_of line)
words_of-HasWords (comment word words) h = h
words_of-HasWords (sample_line name labels value) (n, w, v) = (w, (v, tt))

map-HasWords : (lines : List Line) → All IsLine lines → All HasWords (map words_of lines)
map-HasWords [] h = tt
map-HasWords (line ∷ lines) (a, h) = (words_of-HasWords line a, map-HasWords lines h)

module _ (reals : Reals) (floats : Floats reals) where
  -- What a line says of a metric: the value, if it has this name and a value that parses.
  abbrev pub said : Metric → Line → Option reals.Real
  said k (comment word words) = none
  said k (sample_line name labels value) =
      if same_bytes name (metric_name k) then floats.parse_float value else none

  -- The last value that the lines say.
  abbrev pub last_said : Metric → List Line → Option reals.Real
  last_said k [] = none
  last_said k (line ∷ lines) = or_else reals floats (last_said k lines) (said k line)

  value_of-comment :
      (k : Known) (word : Bytes) (words : List Bytes)
      → value_of reals floats k (sample reals floats ((b'#' ∷ word) ∷ words)) ≡ none
  value_of-comment k word [] = refl
  value_of-comment k word (w ∷ words) = refl

  if_same : (b : Bool) (o : Option reals.Real) → (if b then o else o) ≡ o
  if_same true o = refl
  if_same false o = refl

  value_of-said :
      (k : Metric) (line : Line)
      → IsLine line
      → value_of reals floats (known k) (sample reals floats (words_of line)) ≡ said k line
  value_of-said k (comment word words) h = value_of-comment (known k) word words
  value_of-said k (sample_line name labels value) ((n, m), w, v) =
      let plain = is_comment-name name labels m in
      let bare = strip_labels-name name labels n in
      let found = known_of-metric_name k name in
      elim (Option-cases (floats.parse_float value)) [
        | inl e ↦ rw (plain, e) (sym (if_same (same_bytes name (metric_name k)) none))
        | inr (x, e) ↦ rw (plain, e, bare, found) refl
      ]

  last_value-last_said :
      (k : Metric) (lines : List Line)
      → All IsLine lines
      → last_value reals floats (known k) (map words_of lines) ≡ last_said k lines
  last_value-last_said k [] h = refl
  last_value-last_said k (line ∷ lines) (a, h) =
      cc (value_of-said k line a, last_value-last_said k lines h)

  -- A text of metrics, each line a comment or a sample, with labels or without, and its words parted
  -- by some space other than a newline, is read back: each of the five metrics is the value of the
  -- last sample with exactly its name and a value that parses, rounded or in percent, and 0 if there
  -- is none; comments and samples of other names count for nothing.
  pub parse_text-words_of :
      (sep : ℕ) (lines : List Line)
      → is_space sep ≡ true
      → is_newline sep ≡ false
      → All IsLine lines
      → parse_text reals floats (print_text sep (map words_of lines)) ≡ record (no_metrics reals) {
        requests_running = rounded reals floats (last_said Metric.requests_running lines) (pos 0);
        requests_waiting = rounded reals floats (last_said Metric.requests_waiting lines) (pos 0);
        kv_cache_usage_perc =
            in_percent reals floats (last_said kv_cache_usage lines) reals.zero_real;
        prompt_tokens_total = rounded reals floats (last_said prompt_total lines) (pos 0);
        gen_tokens_total = rounded reals floats (last_said generation_total lines) (pos 0);
      }
  parse_text-words_of sep lines k n h =
      let same = λ (m : Metric). last_value-last_said m lines h in
      parse_text-print_text reals floats sep (map words_of lines) k n (map-HasWords lines h)
      ∙ cc (
        same Metric.requests_running,
        same Metric.requests_waiting,
        same kv_cache_usage,
        same prompt_total,
        same generation_total,
      )
