-- ===== src/Main/Undying.antt =====
-- What a signal does to the program of cmd/llm-bridge/main.go.
use llm_bridge.Discovery.State.{Reply, Discovery, RawMessage}
use llm_bridge.Discovery.Poller.{WorkerPhase}
use llm_bridge.Discovery.Polled.{is_idle, last_visit}
use llm_bridge.Metrics.Collector.{Reals}
use llm_bridge.Router.Best.{Float64}
use llm_bridge.Router.Route.{Sort}
use llm_bridge.Main.Lifecycle.{
  serving, Program, World, alive, dead, ProgramEvent, signals, listener_fails, proceeds,
  polls_models, collects, queues, program_step,
}
use llm_bridge.Base.{String, ◌≡◌, ◌⊎◌, Bool, true, false, Option}

abbrev pub is_failure : {reals : Reals} → ProgramEvent reals → Bool
is_failure listener_fails = true
is_failure signals = false
is_failure proceeds = false
is_failure (polls_models ready reply) = false
is_failure (collects e) = false
is_failure (queues e) = false

-- The program is dead, or it serves as at the signal, when the goroutine of the discovery was at this
-- phase, with these models: they are as they were, or the exchange that was in flight has ended, and
-- what came of it is stored; none is in flight any more.
pub data IsUndying (reals : Reals) (model_id : RawMessage → Option String) (f : WorkerPhase)
    (d : Discovery) : World reals → Type 0 where
  crash : IsUndying reals model_id f d dead
  serves :
      {p : Program reals}
      → p.phase ≡ serving
      → p.listening ≡ true
      → p.shut ≡ false
      → p.poller.done ≡ true
      → ((p.poller.phase ≡ f) × (p.poller.discovery ≡ d))
        ⊎ ((is_idle model_id p.poller.phase ≡ true)
            × (reply : Reply) × (p.poller.discovery ≡ last_visit model_id f reply d))
      → IsUndying reals model_id f d (alive p)

module _ (reals : Reals) (float : Float64) (sort : Sort)
    (model_id : RawMessage → Option String) where
  abbrev step : ProgramEvent reals → Program reals → World reals
  step e p = program_step reals float sort model_id e p
