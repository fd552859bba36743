-- ===== src/Router/Stopped.antt =====
-- What `stop` of router/queue.go does to the goroutine, and to the calls that come after it.
use llm_bridge.Router.Best.{Float64}
use llm_bridge.Router.Route.{Sort}
use llm_bridge.Router.Queue.{
  QueueItem, ensure_started, notify, push_item, enqueue, remove_item, Delivery, Seen, drain,
}
use llm_bridge.Router.Loop.{
  LoopPhase, absent, selecting, processing, returned, QueueSystem, QueueEvent, enqueues,
  receives_signal, ticks, receives_stop, processes, removes, drains, at_select, is_selecting,
  process_at, queue_step, queue_run,
}
use llm_bridge.Base.{◌≡◌, refl, ap, ◌≢◌, ◌⊎◌, inl, inr, Bool, true, false, ◌&&◌, List, [], ◌∷◌, All}
use llm_bridge.Base.Int.{ℤ}

abbrev pub no_drain : QueueEvent → Bool
no_drain (enqueues item) = true
no_drain receives_signal = true
no_drain ticks = true
no_drain receives_stop = true
no_drain (processes now seen) = true
no_drain (removes item) = true
no_drain drains = false

-- `run` has returned, and `started` still says that it was started.
pub record IsStopped (sent : List Delivery) (s : QueueSystem) : Type 0 where
  pub gone : s.phase ≡ returned
  pub marked : s.manager.started ≡ true
  pub answers : s.sent ≡ sent

LoopPhase-cases : (f : LoopPhase) → (f ≡ selecting) ⊎ (is_selecting f ≡ false)
LoopPhase-cases selecting = inl refl
LoopPhase-cases absent = inr refl
LoopPhase-cases processing = inr refl
LoopPhase-cases returned = inr refl

at_select-ne : (target f : LoopPhase) → is_selecting f ≡ false → at_select target f ≡ f
at_select-ne target selecting h = cc
at_select-ne target absent h = refl
at_select-ne target processing h = refl
at_select-ne target returned h = refl

module _ (float : Float64) (sort : Sort) where
  process_at-ne :
      (now : ℤ) (seen : QueueItem → Seen) (f : LoopPhase) (s : QueueSystem)
      → f ≡ returned
      → process_at float sort now seen f s ≡ s
  process_at-ne now seen processing s h = cc
  process_at-ne now seen selecting s h = refl
  process_at-ne now seen absent s h = refl
  process_at-ne now seen returned s h = refl

  queue_step-IsStopped :
      (e : QueueEvent) (sent : List Delivery) (s : QueueSystem)
      → no_drain e ≡ true
      → IsStopped sent s
      → IsStopped sent (queue_step float sort e s)
  unfolding queue_step enqueue remove_item drain notify push_item ensure_started
  queue_step-IsStopped (enqueues item) sent s k h = record {
    gone = rw (h.marked, h.gone);
    marked = refl;
    answers = h.answers;
  }
  queue_step-IsStopped receives_signal sent s k h =
      let e : is_selecting s.phase && s.manager.signalled ≡ false = rw h.gone in rw e h
  queue_step-IsStopped ticks sent s k h = record {
    gone = rw h.gone;
    marked = h.marked;
    answers = h.answers;
  }
  queue_step-IsStopped receives_stop sent s k h = record {
    gone = rw h.gone;
    marked = h.marked;
    answers = h.answers;
  }
  queue_step-IsStopped (processes now seen) sent s k h =
      rw (process_at-ne now seen s.phase s (rw h.gone)) h
  queue_step-IsStopped (removes item) sent s k h = record {
    gone = h.gone;
    marked = h.marked;
    answers = h.answers;
  }
  queue_step-IsStopped drains sent s k h = cc

  queue_run-IsStopped :
      (es : List QueueEvent) (sent : List Delivery) (s : QueueSystem)
      → All (λ e. no_drain e ≡ true) es
      → IsStopped sent s
      → IsStopped sent (queue_run float sort es s)
  unfolding queue_run
  queue_run-IsStopped [] sent s k h = h
  queue_run-IsStopped (e ∷ es) sent s (k, ks) h =
      queue_run-IsStopped es sent (queue_step float sort e s) ks (queue_step-IsStopped e sent s k h)

  receives_stop-selecting :
      (s : QueueSystem)
      → s.phase ≡ selecting
      → s.manager.started ≡ true
      → IsStopped s.sent (queue_step float sort receives_stop s)
  unfolding queue_step
  receives_stop-selecting s e m = record { gone = rw e; marked = m; answers = refl }

  receives_stop-ne :
      (s : QueueSystem) → is_selecting s.phase ≡ false → queue_step float sort receives_stop s ≡ s
  unfolding queue_step
  receives_stop-ne s e = ap (λ f. record s { phase = f }) (at_select-ne returned s.phase e)

  -- `stop` of a queue whose goroutine was started, in any run without `drain` after it. If the
  -- goroutine is at its select, it returns and is never started again: whatever arrives later, and
  -- however long it waits, no item is sent a result any more, not even a timeout. If the goroutine is
  -- not at its select, as in `processQueue`, the signal is lost: the run is the same without it.
  pub queue_run-receives_stop :
      (es : List QueueEvent) (s : QueueSystem)
      → s.manager.started ≡ true
      → All (λ e. no_drain e ≡ true) es
      → ((s.phase ≡ selecting) × IsStopped s.sent (queue_run float sort (receives_stop ∷ es) s))
        ⊎ ((s.phase ≢ selecting)
            × (queue_run float sort (receives_stop ∷ es) s ≡ queue_run float sort es s))
  unfolding queue_run
  queue_run-receives_stop es s m k = elim (LoopPhase-cases s.phase) [
    | inl e ↦ inl (
      e,
      queue_run-IsStopped es s.sent (queue_step float sort receives_stop s) k
          (receives_stop-selecting s e m),
    )
    | inr e ↦ inr (λ q. cc (ap is_selecting q), ap (queue_run float sort es) (receives_stop-ne s e))
  ]
