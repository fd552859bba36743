-- ===== src/Metrics/Worker.antt =====
-- metrics/metrics.go: `fetchOne`, and `Start`, `Stop` and the goroutine between them, with what the
-- admin handlers do to the collector while it runs.
use llm_bridge.Server.Comments.{Bytes}
use llm_bridge.Metrics.Collector.{
  Reals, no_metrics, Collector, new_collector, start_entries, set_servers, remove, Fetch,
  fetch_failed, fetched, FetchResult, ran, panicked, Poll, fetch_all,
}
use llm_bridge.Metrics.Parser.{Floats, parse_prometheus}
use llm_bridge.Base.{
  ℕ, String, Bool, true, false, not, ◌&&◌, ◌||◌, Option, none, some, List, [], ◌∷◌, if◌then◌else◌,
}
use llm_bridge.Base.Int.{ℤ, pos, leb_ℤ}

-- The exchange with a server: the request cannot be made, it fails, or a response with a status and
-- a body, of which nothing is known if reading it fails.
pub data MetricsReply : Type 0 where
  no_request no_response : MetricsReply
  response : ℤ → Option (List (List Bytes)) → MetricsReply

module _ (reals : Reals) (floats : Floats reals) where
  abbrev pub read_body : ℤ → Option (List (List Bytes)) → Fetch reals
  read_body now none = fetch_failed
  read_body now (some lines) =
      fetched (record (parse_prometheus reals floats lines) { updated_at = some now })

  -- `fetchOne`, at this instant.
  unfoldable pub fetch_one : ℤ → MetricsReply → Fetch reals
  fetch_one now no_request = fetch_failed
  fetch_one now no_response = fetch_failed
  fetch_one now (response status body) =
      if leb_ℤ status (pos 200) && leb_ℤ (pos 200) status
      then read_body now body
      else fetched (no_metrics reals)

module _ (reals : Reals) where
  -- The collector, the servers that `Start` was given, and what ends the goroutine.
  pub record Worker : Type 0 where
    pub collector : Collector reals
    pub urls : List String
    pub context_done : Bool
    pub stop_closed : Bool
    pub running : Bool

  -- A panic in any goroutine ends the program.
  pub data Process : Type 0 where
    up : Worker → Process
    crashed : Process

  abbrev pub launched : List String → Bool → FetchResult reals → Process
  launched urls context_done (ran c) = up (record {
    collector = c;
    urls = urls;
    context_done = context_done;
    stop_closed = false;
    running = true;
  })
  launched urls context_done panicked = crashed

  -- `Start` of a new collector: the first poll runs in the caller.
  unfoldable pub start_worker : List String → (ℕ → Poll reals) → Bool → Process
  start_worker urls polls context_done =
      launched urls context_done
        (fetch_all reals urls polls (start_entries reals urls (new_collector reals)))

  pub data WorkerEvent : Type 0 where
    polls : (ℕ → Poll reals) → WorkerEvent
    sees_end : WorkerEvent
    ends_context : WorkerEvent
    stops : WorkerEvent
    sets_servers : List String → WorkerEvent
    removes : String → WorkerEvent

  abbrev pub polled : Worker → FetchResult reals → Process
  polled w (ran c) = up (record w { collector = c })
  polled w panicked = crashed

  -- `stops` is `Stop` up to its wait: a channel that is closed twice panics.
  unfoldable pub worker_event : WorkerEvent → Worker → Process
  worker_event (polls ps) w =
      if w.running then polled w (fetch_all reals w.urls ps w.collector) else up w
  worker_event sees_end w =
      up (record w { running = w.running && not (w.context_done || w.stop_closed) })
  worker_event ends_context w = up (record w { context_done = true })
  worker_event stops w = if w.stop_closed then crashed else up (record w { stop_closed = true })
  worker_event (sets_servers urls) w =
      up (record w { collector = set_servers reals urls w.collector })
  worker_event (removes u) w = up (record w { collector = remove reals u w.collector })

  abbrev pub after_event : WorkerEvent → Process → Process
  after_event e crashed = crashed
  after_event e (up w) = worker_event e w

  unfoldable pub worker_events : List WorkerEvent → Process → Process
  worker_events [] p = p
  worker_events (e ∷ es) p = worker_events es (after_event e p)
