-- ===== src/Metrics/WorkerTests.antt =====
-- Tests of the collector's goroutine of metrics/metrics.go and of its text, and the theorems on it at
-- concrete inputs.
use llm_bridge.Server.Comments.{Bytes}
use llm_bridge.Metrics.Collector.{no_metrics, fetched, Poll}
use llm_bridge.Metrics.Text.{text_fields}
use llm_bridge.Metrics.Tests.{whole, metrics_model, sample_at, floats}
use llm_bridge.Metrics.Worker.{
  response, fetch_one, Worker, Process, up, crashed, start_worker, WorkerEvent, polls, sees_end,
  stops, sets_servers, removes, worker_event, worker_events,
}
use llm_bridge.Metrics.Crashes.{worker_events-sets_servers}
use llm_bridge.Metrics.Panics.{IsUnraced}
use llm_bridge.Metrics.Steady.{IsUp, worker_events-start_worker}
use llm_bridge.Base.Text.{runes}
use llm_bridge.Base.{
  ℕ, String, ◌≡◌, refl, ◌≢◌, Bool, true, false, Option, none, some, List, [], ◌∷◌, Memᴰ, lookup,
}
use llm_bridge.Base.Int.{pos}

worker_model : Unit {0}
unfolding metrics_model start_worker worker_event worker_events
worker_model = tt

abbrev urls : List String
urls = "http://a" ∷ "http://b" ∷ []

abbrev answers : ℕ → Poll whole
answers i = record { context = none; fetch = fetched (sample_at 10 1000000000); is_raced = false }

answers-IsUnraced : IsUnraced whole answers
answers-IsUnraced i = refl

-- A server is added between two polls, and the second one reads the map at that moment.
abbrev raced : ℕ → Poll whole
raced i = record (answers i) { is_raced = true }

abbrev events : List (WorkerEvent whole)
events = polls answers ∷ stops ∷ sees_end ∷ polls answers ∷ []

abbrev is_running : Process whole → Option Bool
is_running crashed = none
is_running (up w) = some w.running

worker_tests :
    (is_running (start_worker whole urls answers false) ≡ some true)
    × (is_running (worker_events whole events (start_worker whole urls answers false)) ≡ some false)
    × (worker_events whole (stops ∷ stops ∷ []) (start_worker whole urls answers false) ≡ crashed)
    × (worker_events whole
          (sets_servers ("http://a" ∷ []) ∷ polls answers ∷ [])
          (start_worker whole urls answers false)
        ≡ crashed)
    × (worker_events whole (polls raced ∷ []) (start_worker whole urls answers false) ≡ crashed)
    × (is_running (start_worker whole urls raced false) ≡ some true)
unfolding worker_model
worker_tests = (refl, refl, refl, refl, refl, refl)

abbrev body : Bytes
body = runes "# HELP x y\nvllm:num_requests_running{a=\"b\"} 3\n\n  vllm:prompt_tokens_total\t7 \n"

text_tests :
    (text_fields body
      ≡ (runes "#" ∷ runes "HELP" ∷ runes "x" ∷ runes "y" ∷ [])
        ∷ (runes "vllm:num_requests_running{a=\"b\"}" ∷ runes "3" ∷ [])
        ∷ []
        ∷ (runes "vllm:prompt_tokens_total" ∷ runes "7" ∷ [])
        ∷ []
        ∷ [])
unfolding text_fields
text_tests = refl

fetch_tests :
    (fetch_one whole floats (pos 5) (response (pos 404) none) ≡ fetched (no_metrics whole))
    × (fetch_one whole floats (pos 5) (response (pos 200) (some []))
        ≡ fetched (record (no_metrics whole) { updated_at = some (pos 5) }))
unfolding metrics_model fetch_one
fetch_tests = (refl, refl)

-- A server is added, and a round later another is removed that is not polled.
abbrev steady_events : List (WorkerEvent whole)
steady_events =
    polls answers
    ∷ sets_servers ("http://c" ∷ "http://b" ∷ "http://a" ∷ [])
    ∷ polls answers
    ∷ removes "http://c"
    ∷ events

worker_events-start_worker_example :
    IsUp whole urls (worker_events whole steady_events (start_worker whole urls answers false))
worker_events-start_worker_example =
    worker_events-start_worker whole urls answers false steady_events answers-IsUnraced (
      answers-IsUnraced,
      (
        (refl, (refl, tt)),
        (answers-IsUnraced, (refl, (answers-IsUnraced, (refl, (answers-IsUnraced, tt))))),
      ),
    )

abbrev launched : Worker whole
launched = record {
  collector = record {
    data_of = ("http://a", sample_at 10 1) ∷ ("http://b", sample_at 10 1) ∷ [];
    prev = ("http://b", record { prompt_tokens = pos 10; gen_tokens = pos 0 }) ∷ [];
  };
  urls = urls;
  context_done = false;
  stop_closed = false;
  running = true;
}

launched-counts : lookup "http://b" launched.collector.prev ≢ none
unfolding lookup
launched-counts = λ e. cc

worker_events-sets_servers_example :
    worker_events whole (sets_servers ("http://a" ∷ []) ∷ polls answers ∷ []) (up launched)
    ≡ crashed
worker_events-sets_servers_example =
    worker_events-sets_servers whole ("http://a" ∷ []) "http://b" answers launched [] refl
      (Memᴰ.tail (Memᴰ.head refl)) launched-counts refl (λ i. (sample_at 10 1000000000, refl, refl))
