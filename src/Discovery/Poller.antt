-- ===== src/Discovery/Poller.antt =====
-- discovery/discovery.go: `Start`, `Stop` and the goroutine between them, one step from a point where
-- it may be interrupted to the next. What `Start` derives its context from is the parent context.
use llm_bridge.Backend.Pool.{ContextError, canceled}
use llm_bridge.Discovery.State.{
  Discovery, RawMessage, Reply, request_failed, decode_failed, do_failed, decoded, visit_reply,
}
use llm_bridge.Base.{String, Bool, true, false, Option, none, some, List, [], ◌∷◌, if◌then◌else◌}

-- Where the goroutine is: at its select; in a poll, before the visit of the first of these servers, or
-- with the exchange with a server in flight and these servers left; or returned.
pub data WorkerPhase : Type 0 where
  selecting : WorkerPhase
  polling : List String → WorkerPhase
  asking : String → List String → WorkerPhase
  exited : WorkerPhase

-- `cancel` says whether the function that cancels the goroutine's context is kept, and `done` whether
-- that context is done. Before the first `Start` there is no goroutine, as after one has returned.
pub record Poller : Type 0 where
  pub discovery : Discovery
  pub started : Bool
  pub cancel : Bool
  pub done : Bool
  pub phase : WorkerPhase

abbrev pub new_poller : Discovery → Poller
new_poller d = record {
  discovery = d;
  started = false;
  cancel = false;
  done = false;
  phase = exited;
}

-- `Start`, for a parent context that is done or not.
unfoldable pub start_poller : Bool → Poller → Poller
start_poller parent_done p =
    if p.started
    then p
    else record p { started = true; cancel = true; done = parent_done; phase = selecting }

-- `Stop`, up to its wait for the goroutine.
unfoldable pub stop_poller : Poller → Poller
stop_poller p = record p {
  started = false;
  cancel = false;
  done = if p.cancel then true else p.done;
}

-- The parent context is done: the goroutine's is done too.
unfoldable pub end_parent : Poller → Poller
end_parent p = record p { done = true }

-- What the select finds: the context is done, or the ticker has fired. Where both hold it may be
-- either.
pub data Ready : Type 0 where
  context_done ticked : Ready

module _ (model_id : RawMessage → Option String) where
  abbrev pub context_of : Bool → Option ContextError
  context_of b = if b then some canceled else none

  -- The reply to an exchange: what an error of `Do` is followed by is the context at that moment.
  abbrev pub reply_at : Bool → Reply → Reply
  reply_at done request_failed = request_failed
  reply_at done decode_failed = decode_failed
  reply_at done (do_failed ctx) = do_failed (context_of done)
  reply_at done (decoded raws) = decoded raws

  -- The end of one visit: the poll goes on, or `Discover` returns.
  abbrev pub after_visit : List String → Discovery × Option ContextError → Poller → Poller
  after_visit urls (d, none) p = record p { discovery = d; phase = polling urls }
  after_visit urls (d, some e) p = record p { discovery = d; phase = selecting }

  -- One step: what the select finds, and what the server replies. The context may be done while an
  -- exchange is in flight; what came of it is stored all the same.
  unfoldable pub worker_step : Ready → Reply → Poller → Poller
  worker_step ready reply p = elim p.phase [
    | exited ↦ p
    | selecting ↦ elim ready [
      | context_done ↦ if p.done then record p { phase = exited } else p
      | ticked ↦ record p { phase = if p.done then selecting else polling p.discovery.servers }
    ]
    | polling [] ↦ record p { phase = selecting }
    | polling (url ∷ urls) ↦ record p { phase = if p.done then selecting else asking url urls }
    | asking url urls ↦
        after_visit urls (visit_reply model_id url (reply_at p.done reply) p.discovery) p
  ]

  unfoldable pub worker_run : List (Ready × Reply) → Poller → Poller
  worker_run [] p = p
  worker_run ((ready, reply) ∷ xs) p = worker_run xs (worker_step ready reply p)
