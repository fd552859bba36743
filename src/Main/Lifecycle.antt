-- ===== src/Main/Lifecycle.antt =====
-- cmd/llm-bridge/main.go: `main` from the start of the goroutines on, with `Start` and `Shutdown` of
-- server/server.go. One event is one step of `main`, of a goroutine, or of the world.
use llm_bridge.Discovery.State.{RawMessage, Reply}
use llm_bridge.Discovery.Poller.{
  WorkerPhase, exited, Poller, stop_poller, end_parent, Ready, worker_step,
}
use llm_bridge.Metrics.Collector.{Reals}
use llm_bridge.Metrics.Worker.{
  Worker, Process, up, crashed, WorkerEvent, polls, sees_end, ends_context, stops, worker_event,
}
use llm_bridge.Router.Best.{Float64}
use llm_bridge.Router.Route.{Sort}
use llm_bridge.Router.Loop.{
  QueueSystem, QueueEvent, enqueues, receives_signal, ticks, receives_stop, processes, removes,
  drains, queue_step,
}
use llm_bridge.Base.{String, Bool, true, false, Option, List, [], ◌∷◌, if◌then◌else◌}

-- Where `main` is: in `ListenAndServe`, before each call of the shutdown, in one of its two waits,
-- or at its end.
pub data MainPhase : Type 0 where
  serving stopping_discovery waiting_discovery stopping_metrics waiting_metrics : MainPhase
  draining stopping_queue closing_http finished : MainPhase

-- `listening` says whether the listener accepts, `shut` whether `Shutdown` has been called.
pub record Program (reals : Reals) : Type 0 where
  pub phase : MainPhase
  pub listening : Bool
  pub shut : Bool
  pub poller : Poller
  pub worker : Worker reals
  pub queue : QueueSystem

-- A panic of a goroutine ends the program.
pub data World (reals : Reals) : Type 0 where
  alive : Program reals → World reals
  dead : World reals

pub data ProgramEvent (reals : Reals) : Type 0 where
  signals listener_fails proceeds : ProgramEvent reals
  polls_models : Ready → Reply → ProgramEvent reals
  collects : WorkerEvent reals → ProgramEvent reals
  queues : QueueEvent → ProgramEvent reals

abbrev pub is_exited : WorkerPhase → Bool
is_exited exited = true
is_exited WorkerPhase.selecting = false
is_exited (WorkerPhase.polling urls) = false
is_exited (WorkerPhase.asking url urls) = false

-- The goroutine of the queue and the requests; `drain` and `stop` are calls of `main`.
abbrev pub by_others : QueueEvent → Bool
by_others (enqueues item) = true
by_others receives_signal = true
by_others ticks = true
by_others (processes now seen) = true
by_others (removes item) = true
by_others receives_stop = false
by_others drains = false

module _ (reals : Reals) where
  -- The goroutine and the admin handlers; `Stop` and the end of the context come from elsewhere.
  abbrev pub by_collector : WorkerEvent reals → Bool
  by_collector (polls ps) = true
  by_collector sees_end = true
  by_collector ends_context = false
  by_collector stops = false
  by_collector (WorkerEvent.sets_servers urls) = true
  by_collector (WorkerEvent.removes u) = true

  abbrev pub with_worker : Program reals → Process reals → World reals
  with_worker p crashed = dead
  with_worker p (up w) = alive (record p { worker = w })

  -- The context that `main` gives to the goroutines is done, and nothing else.
  abbrev pub signal : Program reals → World reals
  signal p =
      with_worker (record p { poller = end_parent p.poller })
        (worker_event reals ends_context p.worker)

  -- `ListenAndServe` returns an error, and `Start` with it.
  abbrev pub fail_listener : MainPhase → Program reals → Program reals
  fail_listener serving p = record p { phase = stopping_discovery; listening = false }
  fail_listener _ p = p

  module _ (float : Float64) (sort : Sort) where
    -- The next step of `main`, at this phase.
    unfoldable pub main_step : MainPhase → Program reals → World reals
    main_step serving p = alive p
    main_step stopping_discovery p =
        alive (record p { poller = stop_poller p.poller; phase = waiting_discovery })
    main_step waiting_discovery p =
        alive (if is_exited p.poller.phase then record p { phase = stopping_metrics } else p)
    main_step stopping_metrics p =
        with_worker (record p { phase = waiting_metrics }) (worker_event reals stops p.worker)
    main_step waiting_metrics p =
        alive (if p.worker.running then p else record p { phase = draining })
    main_step draining p =
        alive (record p { queue = queue_step float sort drains p.queue; phase = stopping_queue })
    main_step stopping_queue p =
        alive
          (record p { queue = queue_step float sort receives_stop p.queue; phase = closing_http })
    main_step closing_http p = alive (record p { shut = true; listening = false; phase = finished })
    main_step finished p = alive p

    module _ (model_id : RawMessage → Option String) where
      unfoldable pub program_step : ProgramEvent reals → Program reals → World reals
      unfolding main_step
      program_step signals p = signal p
      program_step listener_fails p = alive (fail_listener p.phase p)
      program_step proceeds p = main_step p.phase p
      program_step (polls_models ready reply) p =
          alive (record p { poller = worker_step model_id ready reply p.poller })
      program_step (collects e) p =
          if by_collector e then with_worker p (worker_event reals e p.worker) else alive p
      program_step (queues e) p =
          if by_others e
          then alive (record p { queue = queue_step float sort e p.queue })
          else alive p

      abbrev pub after_world : ProgramEvent reals → World reals → World reals
      after_world e dead = dead
      after_world e (alive p) = program_step e p

      unfoldable pub program_run : List (ProgramEvent reals) → World reals → World reals
      program_run [] v = v
      program_run (e ∷ es) v = program_run es (after_world e v)
