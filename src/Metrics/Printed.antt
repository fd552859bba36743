-- ===== src/Metrics/Printed.antt =====
-- A text of metrics, and what `parsePrometheus` of metrics/metrics.go reads off it.
use llm_bridge.Metrics.Collector.{Reals, no_metrics}
use llm_bridge.Metrics.Parser.{
  Floats, Known, running, waiting, kv_cache, prompt_tokens, gen_tokens, parse_prometheus,
}
use llm_bridge.Metrics.Parsed.{last_value, rounded, in_percent, parse_prometheus_lem}
use llm_bridge.Metrics.Text.{
  split_by, is_newline, is_space, fields, text_fields, parse_text, none_of, split_by-append,
  none_of-append,
}
use llm_bridge.Metrics.Words.{is_word, and_left, fields-word, spaceless}
use llm_bridge.Server.Comments.{Bytes}
use llm_bridge.Base.{ℕ, ◌≡◌, refl, ap, ◌∙◌, true, false, List, [], ◌∷◌, ◌++◌, map, All}
use llm_bridge.Base.Int.{pos}

-- A line: each word with the separator behind it.
abbrev pub print_line : ℕ → List Bytes → Bytes
print_line sep [] = []
print_line sep (word ∷ words) = word ++ sep ∷ print_line sep words

-- A text: each line with a newline behind it.
abbrev pub print_text : ℕ → List (List Bytes) → Bytes
print_text sep [] = []
print_text sep (line ∷ lines) = print_line sep line ++ 10 ∷ print_text sep lines

abbrev pub HasWords : List Bytes → Type 0
HasWords line = All (λ word. is_word word ≡ true) line

fields-print_line :
    (sep : ℕ) (line : List Bytes)
    → is_space sep ≡ true
    → HasWords line
    → fields (print_line sep line) ≡ line
unfolding fields split_by
fields-print_line sep [] k h = refl
fields-print_line sep (word ∷ words) k (w, h) =
    fields-word sep word (print_line sep words) k w
    ∙ ap (λ t. word ∷ t) (fields-print_line sep words k h)

print_line-none_of :
    (sep : ℕ) (line : List Bytes)
    → is_newline sep ≡ false
    → HasWords line
    → none_of is_newline (print_line sep line) ≡ true
print_line-none_of sep [] k h = refl
print_line-none_of sep (word ∷ words) k (w, h) =
    none_of-append is_newline word (sep ∷ print_line sep words) (spaceless word (and_left _ w))
      (rw k (print_line-none_of sep words k h))

text_fields-print_text :
    (sep : ℕ) (lines : List (List Bytes))
    → is_space sep ≡ true
    → is_newline sep ≡ false
    → All HasWords lines
    → text_fields (print_text sep lines) ≡ lines ++ [] ∷ []
unfolding text_fields split_by fields
text_fields-print_text sep [] k n h = refl
text_fields-print_text sep (line ∷ lines) k n (w, h) =
    ap (map fields) (
      split_by-append is_newline (print_line sep line) 10 (print_text sep lines)
        (print_line-none_of sep line n w) refl)
    ∙ ap (λ t. t ∷ text_fields (print_text sep lines)) (fields-print_line sep line k w)
    ∙ ap (λ t. line ∷ t) (text_fields-print_text sep lines k n h)

module _ (reals : Reals) (floats : Floats reals) where
  last_value-blank :
      (known : Known) (lines : List (List Bytes))
      → last_value reals floats known (lines ++ [] ∷ []) ≡ last_value reals floats known lines
  last_value-blank known [] = refl
  last_value-blank known (line ∷ lines) = rw (last_value-blank known lines)

  -- A text of lines of words, which some space other than a newline parts, is read back: each metric
  -- is the value of the last sample that the lines have of it, rounded or in percent, and 0 if they
  -- have none; comments, lines of one word, and samples that do not parse count for nothing.
  pub parse_text-print_text :
      (sep : ℕ) (lines : List (List Bytes))
      → is_space sep ≡ true
      → is_newline sep ≡ false
      → All HasWords lines
      → parse_text reals floats (print_text sep lines) ≡ record (no_metrics reals) {
        requests_running = rounded reals floats (last_value reals floats running lines) (pos 0);
        requests_waiting = rounded reals floats (last_value reals floats waiting lines) (pos 0);
        kv_cache_usage_perc =
            in_percent reals floats (last_value reals floats kv_cache lines) reals.zero_real;
        prompt_tokens_total =
            rounded reals floats (last_value reals floats prompt_tokens lines) (pos 0);
        gen_tokens_total = rounded reals floats (last_value reals floats gen_tokens lines) (pos 0);
      }
  unfolding parse_text
  parse_text-print_text sep lines k n h =
      ap (parse_prometheus reals floats) (text_fields-print_text sep lines k n h)
      ∙ parse_prometheus_lem reals floats (lines ++ [] ∷ [])
      ∙ simp (last_value-blank)
