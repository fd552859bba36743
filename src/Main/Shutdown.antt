-- ===== src/Main/Shutdown.antt =====
-- The order in which `main` of cmd/llm-bridge/main.go takes the program down, and that it ends.
use llm_bridge.Discovery.State.{RawMessage}
use llm_bridge.Discovery.Poller.{WorkerPhase, exited, stop_poller, end_parent, worker_step}
use llm_bridge.Discovery.Polled.{worker_step-exited}
use llm_bridge.Metrics.Collector.{Reals}
use llm_bridge.Metrics.Worker.{
  Worker, Process, up, crashed, WorkerEvent, polls, sees_end, ends_context, stops, sets_servers,
  removes, worker_event,
}
use llm_bridge.Router.Best.{Float64}
use llm_bridge.Router.Route.{Sort}
use llm_bridge.Main.Lifecycle.{
  MainPhase, serving, stopping_discovery, waiting_discovery, stopping_metrics, waiting_metrics,
  draining, stopping_queue, closing_http, finished, Program, World, alive, dead, ProgramEvent,
  signals, listener_fails, proceeds, polls_models, collects, queues, is_exited, by_others,
  by_collector, with_worker, fail_listener, main_step, program_step, program_run,
}
use llm_bridge.Base.{
  ℕ, ◌<◌, String, ◌≡◌, refl, ap, ◌∙◌, ◌⊎◌, inl, inr, true, false, Option, List, [], ◌∷◌, arith,
  Bool-cases,
}

-- How far `main` has come.
abbrev pub rank : MainPhase → ℕ
rank serving = 0
rank stopping_discovery = 1
rank waiting_discovery = 2
rank stopping_metrics = 3
rank waiting_metrics = 4
rank draining = 5
rank stopping_queue = 6
rank closing_http = 7
rank finished = 8

-- A step of the shutdown is taken only after what comes before it is over.
pub record InOrder {reals : Reals} (p : Program reals) : Type 0 where
  -- The listener accepts only before the shutdown.
  pub listens : (p.listening ≡ false) ⊎ (rank p.phase ≡ 0)
  -- The collector is stopped, the queue drained and stopped, and the server shut down, after the
  -- goroutine of the discovery has returned.
  pub discovery : (rank p.phase < 3) ⊎ (p.poller.phase ≡ exited)
  -- The queue is drained and stopped, and the server shut down, after the collector's goroutine has
  -- returned.
  pub collector : (rank p.phase < 5) ⊎ (p.worker.running ≡ false)
  -- The server is shut down last.
  pub server : (p.shut ≡ false) ⊎ (rank p.phase ≡ 8)

pub data IsOrdered (reals : Reals) : World reals → Type 0 where
  crash : IsOrdered reals dead
  ordered : {p : Program reals} → InOrder p → IsOrdered reals (alive p)

is_exited-exited : (f : WorkerPhase) → is_exited f ≡ true → f ≡ exited
is_exited-exited exited h = refl
is_exited-exited WorkerPhase.selecting h = cc
is_exited-exited (WorkerPhase.polling urls) h = cc
is_exited-exited (WorkerPhase.asking url urls) h = cc

module _ (reals : Reals) where
  worker_event-stopped :
      (e : WorkerEvent reals) (w : Worker reals)
      → w.running ≡ false
      → (worker_event reals e w ≡ crashed)
        ⊎ ((w' : Worker reals) × (worker_event reals e w ≡ up w') × (w'.running ≡ false))
  unfolding worker_event
  worker_event-stopped (polls ps) w h = inr (w, rw h, h)
  worker_event-stopped sees_end w h = inr (_, refl, rw h)
  worker_event-stopped ends_context w h = inr (_, refl, h)
  worker_event-stopped stops w h = elim (Bool-cases w.stop_closed) [
    | inl k ↦ inl (rw k)
    | inr k ↦ inr (record w { stop_closed = true }, rw k, h)
  ]
  worker_event-stopped (sets_servers urls) w h = inr (_, refl, h)
  worker_event-stopped (removes u) w h = inr (_, refl, h)

  Process-cases : (r : Process reals) → (r ≡ crashed) ⊎ ((w : Worker reals) × (r ≡ up w))
  Process-cases crashed = inl refl
  Process-cases (up w) = inr (w, refl)

  with_worker-IsOrdered :
      (e : WorkerEvent reals) (p : Program reals)
      → InOrder p
      → IsOrdered reals (with_worker reals p (worker_event reals e p.worker))
  with_worker-IsOrdered e p h = elim h.collector [
    | inr k ↦ elim (worker_event-stopped e p.worker k) [
      | inl c ↦ rw c crash
      | inr (w, c, g) ↦ rw c (
          ordered (record {
            listens = h.listens;
            discovery = h.discovery;
            collector = inr g;
            server = h.server;
          }))
    ]
    | inl k ↦ elim (Process-cases (worker_event reals e p.worker)) [
      | inl c ↦ rw c crash
      | inr (w, c) ↦ rw c (
          ordered (record {
            listens = h.listens;
            discovery = h.discovery;
            collector = inl k;
            server = h.server;
          }))
    ]
  ]

  fail_listener-InOrder :
      (f : MainPhase) (p : Program reals)
      → p.phase ≡ f
      → InOrder p
      → InOrder (fail_listener reals f p)
  fail_listener-InOrder serving p e h = ground (arith, ap rank e)
  fail_listener-InOrder _ p e h = h

  module _ (float : Float64) (sort : Sort) where
    main_step-IsOrdered :
        (f : MainPhase) (p : Program reals)
        → p.phase ≡ f
        → InOrder p
        → IsOrdered reals (main_step reals float sort f p)
    unfolding main_step stop_poller
    main_step-IsOrdered serving p e h = ordered h
    main_step-IsOrdered stopping_discovery p e h = ordered (ground (arith, ap rank e))
    main_step-IsOrdered waiting_discovery p e h = elim (Bool-cases (is_exited p.poller.phase)) [
      | inl k ↦ simp k (ordered (ground (arith, ap rank e, is_exited-exited p.poller.phase k)))
      | inr k ↦ simp k (ordered h)
    ]
    main_step-IsOrdered stopping_metrics p e h =
        with_worker-IsOrdered stops (record p { phase = waiting_metrics })
          (ground (arith, ap rank e))
    main_step-IsOrdered waiting_metrics p e h = elim (Bool-cases p.worker.running) [
      | inl k ↦ simp k (ordered h)
      | inr k ↦ simp k (ordered (ground (arith, ap rank e, k)))
    ]
    main_step-IsOrdered draining p e h = ordered (ground (arith, ap rank e))
    main_step-IsOrdered stopping_queue p e h = ordered (ground (arith, ap rank e))
    main_step-IsOrdered closing_http p e h = ordered (ground (arith, ap rank e))
    main_step-IsOrdered finished p e h = ordered h

    module _ (model_id : RawMessage → Option String) where
      program_step-IsOrdered :
          (e : ProgramEvent reals) (p : Program reals)
          → InOrder p
          → IsOrdered reals (program_step reals float sort model_id e p)
      unfolding program_step end_parent
      program_step-IsOrdered signals p h =
          with_worker-IsOrdered ends_context (record p { poller = end_parent p.poller })
            (record {
              listens = h.listens;
              discovery = h.discovery;
              collector = h.collector;
              server = h.server;
            })
      program_step-IsOrdered listener_fails p h = ordered (fail_listener-InOrder p.phase p refl h)
      program_step-IsOrdered proceeds p h = main_step-IsOrdered p.phase p refl h
      program_step-IsOrdered (polls_models ready reply) p h =
          ordered {p = record p { poller = worker_step model_id ready reply p.poller }} (record {
            listens = h.listens;
            discovery = elim h.discovery [
              | inl k ↦ inl k
              | inr k ↦
                  inr (ap (λ q. q.phase) (worker_step-exited model_id ready reply p.poller k) ∙ k)
            ];
            collector = h.collector;
            server = h.server;
          })
      program_step-IsOrdered (collects ev) p h = elim (Bool-cases (by_collector reals ev)) [
        | inl k ↦ rw k (with_worker-IsOrdered ev p h)
        | inr k ↦ rw k (ordered h)
      ]
      program_step-IsOrdered (queues ev) p h = elim (Bool-cases (by_others ev)) [
        | inl k ↦ rw k (
            ordered (record {
              listens = h.listens;
              discovery = h.discovery;
              collector = h.collector;
              server = h.server;
            }))
        | inr k ↦ rw k (ordered h)
      ]

      -- The order of the shutdown, in any run of the program from where it starts to serve, whatever
      -- events come and in whatever order: the collector is stopped only after the discovery's
      -- goroutine has returned, the queue is drained and stopped only after the collector's has too,
      -- the server is shut down only after all of these, and once the shutdown has begun the listener
      -- accepts no more. A run in which a goroutine panics has no such state.
      pub program_run-IsOrdered :
          (es : List (ProgramEvent reals)) (v : World reals)
          → IsOrdered reals v
          → IsOrdered reals (program_run reals float sort model_id es v)
      unfolding program_run
      program_run-IsOrdered [] v h = h
      program_run-IsOrdered (e ∷ es) dead h = program_run-IsOrdered es dead crash
      program_run-IsOrdered (e ∷ es) (alive p) (ordered h) =
          program_run-IsOrdered es (program_step reals float sort model_id e p)
            (program_step-IsOrdered e p h)
