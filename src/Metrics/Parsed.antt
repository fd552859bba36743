-- ===== src/Metrics/Parsed.antt =====
-- What `parsePrometheus` of metrics/metrics.go reads off a text.
use llm_bridge.Metrics.Collector.{Reals, ServerMetrics, no_metrics}
use llm_bridge.Metrics.Parser.{
  strip_labels, Floats, Known, running, waiting, kv_cache, prompt_tokens, gen_tokens, unknown,
  known_of, last_of, is_comment, set_known, take_sample, parse_fields, parse_lines,
  parse_prometheus,
}
use llm_bridge.Server.Comments.{Bytes}
use llm_bridge.Base.{
  ◌≡◌, refl, ap, ◌∙◌, inl, inr, Bool, true, false, Option, none, some, List, [], ◌∷◌, if◌then◌else◌,
  Bool-cases, Option-cases,
}
use llm_bridge.Base.Int.{ℤ, pos}

abbrev pub is_known : Known → Known → Bool
is_known running running = true
is_known waiting waiting = true
is_known kv_cache kv_cache = true
is_known prompt_tokens prompt_tokens = true
is_known gen_tokens gen_tokens = true
is_known j k = false

module _ (reals : Reals) (floats : Floats reals) where
  -- The sample that a line holds, if it holds one.
  abbrev pub sample : List Bytes → Option (Known × reals.Real)
  sample [] = none
  sample (name ∷ []) = none
  sample (name ∷ part ∷ parts) =
      if is_comment name then none else elim (floats.parse_float (last_of part parts)) [
        | none ↦ none
        | some v ↦ some (known_of (strip_labels name), v)
      ]

  abbrev pub value_of : Known → Option (Known × reals.Real) → Option reals.Real
  value_of k none = none
  value_of k (some (j, v)) = if is_known j k then some v else none

  abbrev pub or_else : Option reals.Real → Option reals.Real → Option reals.Real
  or_else none later = later
  or_else (some v) later = some v

  -- The value of the last sample of a metric.
  abbrev pub last_value : Known → List (List Bytes) → Option reals.Real
  last_value k [] = none
  last_value k (fields ∷ rest) = or_else (last_value k rest) (value_of k (sample fields))

  abbrev pub rounded : Option reals.Real → ℤ → ℤ
  rounded none n = n
  rounded (some v) n = floats.round v

  abbrev pub in_percent : Option reals.Real → reals.Real → reals.Real
  in_percent none r = r
  in_percent (some v) r = floats.percent v

  -- What the fields hold, for the last values of their metrics.
  abbrev read_off : (Known → Option reals.Real) → ServerMetrics reals → ServerMetrics reals
  read_off last m = record m {
    requests_running = rounded (last running) m.requests_running;
    requests_waiting = rounded (last waiting) m.requests_waiting;
    kv_cache_usage_perc = in_percent (last kv_cache) m.kv_cache_usage_perc;
    prompt_tokens_total = rounded (last prompt_tokens) m.prompt_tokens_total;
    gen_tokens_total = rounded (last gen_tokens) m.gen_tokens_total;
  }

  set_known_lem :
      (j : Known) (v : reals.Real) (m : ServerMetrics reals)
      → set_known reals floats j v m ≡ read_off (λ k. value_of k (some (j, v))) m
  set_known_lem running v m = refl
  set_known_lem waiting v m = refl
  set_known_lem kv_cache v m = refl
  set_known_lem prompt_tokens v m = refl
  set_known_lem gen_tokens v m = refl
  set_known_lem unknown v m = refl

  parse_fields_lem :
      (fields : List Bytes) (m : ServerMetrics reals)
      → parse_fields reals floats fields m ≡ read_off (λ k. value_of k (sample fields)) m
  unfolding parse_fields take_sample
  parse_fields_lem [] m = refl
  parse_fields_lem (name ∷ []) m = refl
  parse_fields_lem (name ∷ part ∷ parts) m = elim (Bool-cases (is_comment name)) [
    | inl e ↦ rw e refl
    | inr e ↦ elim (Option-cases (floats.parse_float (last_of part parts))) [
      | inl k ↦ rw (e, take_sample, k) refl
      | inr (v, k) ↦ rw (e, take_sample, k) (set_known_lem (known_of (strip_labels name)) v m)
    ]
  ]

  rounded-or_else :
      (a b : Option reals.Real) (n : ℤ) → rounded (or_else a b) n ≡ rounded a (rounded b n)
  rounded-or_else none b n = refl
  rounded-or_else (some v) b n = refl

  in_percent-or_else :
      (a b : Option reals.Real) (r : reals.Real)
      → in_percent (or_else a b) r ≡ in_percent a (in_percent b r)
  in_percent-or_else none b r = refl
  in_percent-or_else (some v) b r = refl

  parse_lines_lem :
      (lines : List (List Bytes)) (m : ServerMetrics reals)
      → parse_lines reals floats lines m ≡ read_off (λ k. last_value k lines) m
  unfolding parse_lines
  parse_lines_lem [] m = refl
  parse_lines_lem (fields ∷ rest) m =
      let first = λ (k : Known). value_of k (sample fields) in
      let later = λ (k : Known). last_value k rest in
      parse_lines_lem rest (parse_fields reals floats fields m)
      ∙ ap (read_off later) (parse_fields_lem fields m)
      ∙ cc (
        rounded-or_else (later running) (first running) m.requests_running,
        rounded-or_else (later waiting) (first waiting) m.requests_waiting,
        in_percent-or_else (later kv_cache) (first kv_cache) m.kv_cache_usage_perc,
        rounded-or_else (later prompt_tokens) (first prompt_tokens) m.prompt_tokens_total,
        rounded-or_else (later gen_tokens) (first gen_tokens) m.gen_tokens_total,
      )

  -- Each metric that is read off a text is the value of its last sample, rounded or in percent, and 0
  -- if it has none; comments, lines of one field, and samples that do not parse count for nothing.
  pub parse_prometheus_lem :
      (lines : List (List Bytes))
      → parse_prometheus reals floats lines ≡ record (no_metrics reals) {
        requests_running = rounded (last_value running lines) (pos 0);
        requests_waiting = rounded (last_value waiting lines) (pos 0);
        kv_cache_usage_perc = in_percent (last_value kv_cache lines) reals.zero_real;
        prompt_tokens_total = rounded (last_value prompt_tokens lines) (pos 0);
        gen_tokens_total = rounded (last_value gen_tokens lines) (pos 0);
      }
  unfolding parse_prometheus
  parse_prometheus_lem lines = parse_lines_lem lines (no_metrics reals)
