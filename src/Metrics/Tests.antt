-- ===== src/Metrics/Tests.antt =====
-- Tests of metrics/metrics.go's model, and its theorems at concrete inputs.
use llm_bridge.Metrics.Collector.{
  Reals, ServerMetrics, no_metrics, Collector, new_collector, add_missing, drop_stale,
  start_entries, set_servers, remove, fetched, FetchResult, ran, panicked, Poll, take_metrics,
  take_fetch, fetch_from, fetch_all,
}
use llm_bridge.Metrics.Panics.{IsCovered}
use llm_bridge.Metrics.Parser.{
  Floats, strip_labels, known_of, take_sample, parse_fields, parse_lines, parse_prometheus,
}
use llm_bridge.Metrics.Text.{is_space, parse_text}
use llm_bridge.Metrics.Printed.{print_text}
use llm_bridge.Metrics.Lines.{Line, comment, sample_line, words_of, IsLine, parse_text-words_of}
use llm_bridge.Server.Comments.{Bytes}
use llm_bridge.Base.Text.{runes}
use llm_bridge.Base.{
  false, ℕ, zero, suc, ◌*◌, ◌/◌, ◌≡◌, refl, ◌≢◌, map, Option, none, some, List, [], ◌∷◌, All, ◌==◌,
  if◌then◌else◌, lookup, insert, erase,
}
use llm_bridge.Base.Int.{pos, pos_part, ◌-ℤ◌, sub64}

-- Whole numbers for the reals; a duration counts in nanoseconds.
abbrev pub whole : Reals
whole = record {
  Real = ℕ;
  zero_real = 0;
  rate = λ n dt. pos_part n * 1000000000 / pos_part dt;
  time_sub = λ a b. elim a [ none ↦ pos 0 | some x ↦ elim b [ none ↦ x | some y ↦ x -ℤ y ] ];
}

unfoldable pub metrics_model : Unit {0}
unfolding add_missing drop_stale start_entries set_servers remove take_metrics take_fetch fetch_from
    fetch_all strip_labels known_of take_sample parse_fields parse_lines parse_prometheus lookup
    insert erase sub64
metrics_model = tt

abbrev pub sample_at : ℕ → ℕ → ServerMetrics whole
sample_at tokens time = record (no_metrics whole) {
  prompt_tokens_total = pos tokens;
  updated_at = some (pos time);
}

abbrev started : Collector whole
started = record { data_of = ("http://a", no_metrics whole) ∷ []; prev = [] }

-- Two seconds and thirty tokens between the polls.
abbrev polls : ℕ → Poll whole
polls zero = record { context = none; fetch = fetched (sample_at 10 1000000000); is_raced = false }
polls (suc i) = record {
  context = none;
  fetch = fetched (sample_at 40 3000000000);
  is_raced = false;
}

abbrev throughput : FetchResult whole → Option ℕ
throughput (ran c) = elim (lookup "http://a" c.data_of) [
  | none ↦ none
  | some m ↦ some m.prefill_throughput
]
throughput panicked = none

abbrev twice : FetchResult whole
twice = fetch_all whole ("http://a" ∷ "http://a" ∷ []) polls started

abbrev polled : Collector whole
polled = record {
  data_of = ("http://a", sample_at 10 1) ∷ [];
  prev = ("http://a", record { prompt_tokens = pos 10; gen_tokens = pos 0 }) ∷ [];
}

collector_tests :
    (throughput twice ≡ some 15)
    × (start_entries whole ("http://a" ∷ []) (new_collector whole) ≡ started)
    × (lookup "http://a" (remove whole "http://a" polled).data_of ≡ none)
unfolding metrics_model
collector_tests = (refl, refl, refl)

started-IsCovered : IsCovered whole started
unfolding lookup
started-IsCovered u = refl

polled-known : lookup "http://a" polled.prev ≢ none
unfolding lookup
polled-known e = cc

-- A parser that knows one text.
abbrev pub floats : Floats whole
floats = record {
  parse_float = λ raw. elim raw [ [] ↦ none | c ∷ cs ↦ if c == b'7' then some 7 else none ];
  percent = λ v. v * 100;
  round = λ v. pos v;
}

abbrev text : List (List Bytes)
text =
    (runes "#" ∷ runes "7" ∷ [])
    ∷ (runes "vllm:num_requests_running{engine=\"0\"}" ∷ runes "7" ∷ [])
    ∷ (runes "vllm:num_requests_running" ∷ runes "x" ∷ [])
    ∷ []

parser_tests : (parse_prometheus whole floats text).requests_running ≡ pos 7
unfolding metrics_model
parser_tests = refl

-- The first sample counts: the later ones have another name, or a value that does not parse.
abbrev vllm_lines : List Line
vllm_lines =
    comment [] (runes "7" ∷ [])
    ∷ sample_line (runes "vllm:num_requests_running") (some (runes "engine=\"0\"")) (runes "7")
    ∷ sample_line (runes "vllm:num_requests_running") none (runes "x")
    ∷ sample_line (runes "vllm:num_requests_running_total") none (runes "78")
    ∷ []

vllm_lines-IsLine : All IsLine vllm_lines
unfolding is_space
vllm_lines-IsLine = (
  (refl, (refl, tt)),
  (((refl, refl), refl, refl), (((refl, refl), refl, refl), (((refl, refl), refl, refl), tt))),
)

-- The words are parted by tabs.
parse_text-words_of_example :
    parse_text whole floats (print_text 9 (map words_of vllm_lines))
    ≡ record (no_metrics whole) { requests_running = pos 7 }
unfolding metrics_model is_space
parse_text-words_of_example =
    parse_text-words_of whole floats 9 vllm_lines refl refl vllm_lines-IsLine
