-- ===== src/Metrics/Parser.antt =====
-- metrics/metrics.go: `stripLabels` and `parsePrometheus`. The text is given by the fields of its lines,
-- as `strings.Fields` cuts them; `strconv.ParseFloat` and the roundings are parameters.
use llm_bridge.Metrics.Collector.{Reals, ServerMetrics, no_metrics}
use llm_bridge.Server.Comments.{Bytes}
use llm_bridge.Base.Text.{runes}
use llm_bridge.Base.{
  Bool, true, false, ◌&&◌, Option, none, some, List, [], ◌∷◌, ◌==◌, if◌then◌else◌,
}
use llm_bridge.Base.Int.{ℤ}

unfoldable pub strip_labels : Bytes → Bytes
strip_labels [] = []
strip_labels (c ∷ cs) = let kept = strip_labels cs in if c == b'{' then [] else c ∷ kept

abbrev pub same_bytes : Bytes → Bytes → Bool
same_bytes [] [] = true
same_bytes [] (d ∷ ds) = false
same_bytes (c ∷ cs) [] = false
same_bytes (c ∷ cs) (d ∷ ds) = (c == d) && same_bytes cs ds

pub record Floats (reals : Reals) : Type 0 where
  pub parse_float : Bytes → Option reals.Real
  pub percent : reals.Real → reals.Real
  pub round : reals.Real → ℤ

-- The metrics that the switch knows.
pub data Known : Type 0 where
  running waiting kv_cache prompt_tokens gen_tokens unknown : Known

unfoldable pub known_of : Bytes → Known
known_of name =
    if same_bytes name (runes "vllm:num_requests_running")
    then running
    else if same_bytes name (runes "vllm:num_requests_waiting")
    then waiting
    else if same_bytes name (runes "vllm:kv_cache_usage_perc")
    then kv_cache
    else if same_bytes name (runes "vllm:prompt_tokens_total")
    then prompt_tokens
    else if same_bytes name (runes "vllm:generation_tokens_total")
    then gen_tokens
    else unknown

abbrev pub last_of : Bytes → List Bytes → Bytes
last_of part [] = part
last_of part (p ∷ ps) = last_of p ps

abbrev pub is_comment : Bytes → Bool
is_comment [] = false
is_comment (c ∷ cs) = c == b'#'

module _ (reals : Reals) (floats : Floats reals) where
  -- One case of the switch.
  abbrev pub set_known : Known → reals.Real → ServerMetrics reals → ServerMetrics reals
  set_known running v m = record m { requests_running = floats.round v }
  set_known waiting v m = record m { requests_waiting = floats.round v }
  set_known kv_cache v m = record m { kv_cache_usage_perc = floats.percent v }
  set_known prompt_tokens v m = record m { prompt_tokens_total = floats.round v }
  set_known gen_tokens v m = record m { gen_tokens_total = floats.round v }
  set_known unknown v m = m

  unfoldable pub take_sample : Bytes → Bytes → ServerMetrics reals → ServerMetrics reals
  take_sample name raw m = elim (floats.parse_float raw) [
    | none ↦ m
    | some v ↦ set_known (known_of (strip_labels name)) v m
  ]

  -- One round of the loop: an empty line, a comment, and a line of one field are passed over.
  unfoldable pub parse_fields : List Bytes → ServerMetrics reals → ServerMetrics reals
  parse_fields [] m = m
  parse_fields (name ∷ []) m = m
  parse_fields (name ∷ part ∷ parts) m =
      if is_comment name then m else take_sample name (last_of part parts) m

  unfoldable pub parse_lines : List (List Bytes) → ServerMetrics reals → ServerMetrics reals
  parse_lines [] m = m
  parse_lines (fields ∷ rest) m = parse_lines rest (parse_fields fields m)

  unfoldable pub parse_prometheus : List (List Bytes) → ServerMetrics reals
  unfolding parse_lines parse_fields take_sample
  parse_prometheus lines = parse_lines lines (no_metrics reals)
