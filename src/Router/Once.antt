-- ===== src/Router/Once.antt =====
-- What the goroutine of router/queue.go and the calls beside it do with an item, over any run.
use llm_bridge.Backend.Pool.{Pool}
use llm_bridge.Router.Best.{Float64}
use llm_bridge.Router.Route.{Sort}
use llm_bridge.Router.Answered.{Interleaves, done, left, right, answered, process_queue-Interleaves}
use llm_bridge.Router.Queue.{
  QueueItem, canceled_result, ensure_started, notify, push_item, enqueue, without, remove_item,
  Delivery, Seen, process_queue, drain,
}
use llm_bridge.Router.Loop.{
  LoopPhase, absent, selecting, processing, returned, QueueSystem, new_queue_system, QueueEvent,
  enqueues, receives_signal, ticks, receives_stop, processes, removes, drains, taken_out,
  process_at, queue_step, queue_run,
}
use llm_bridge.Base.{
  ℕ, ◌+◌, ◌≤◌, ◌≡◌, refl, ap, List, [], ◌∷◌, ◌++◌, map, arith, ◌==◌, if◌then◌else◌,
}
use llm_bridge.Base.Int.{ℤ}

-- How often an item occurs among these.
abbrev pub occurs : ℕ → List QueueItem → ℕ
occurs n [] = 0
occurs n (it ∷ items) = (if it.number == n then 1 else 0) + occurs n items

occurs-append : (n : ℕ) (xs ys : List QueueItem) → occurs n (xs ++ ys) ≡ occurs n xs + occurs n ys
occurs-append n [] ys = omega arith
occurs-append n (x ∷ xs) ys = omega (arith, occurs-append n xs ys)

occurs-Interleaves :
    (n : ℕ) {xs ys zs : List QueueItem}
    → Interleaves xs ys zs
    → occurs n zs ≡ occurs n xs + occurs n ys
occurs-Interleaves n done = omega arith
occurs-Interleaves n (left h) = omega (arith, occurs-Interleaves n h)
occurs-Interleaves n (right h) = omega (arith, occurs-Interleaves n h)

occurs-without :
    (n : ℕ) (item : QueueItem) (items : List QueueItem)
    → occurs n items ≡ occurs n (without item.number items) + occurs n (taken_out item items)
unfolding without taken_out
occurs-without n item [] = omega arith
occurs-without n item (it ∷ items) = ground (arith, occurs-without n item items)

answered-append : (xs ys : List Delivery) → answered (xs ++ ys) ≡ answered xs ++ answered ys
answered-append [] ys = refl
answered-append (x ∷ xs) ys = ap (λ t. x.0 ∷ t) (answered-append xs ys)

abbrev canceled_all : List QueueItem → List Delivery
canceled_all items = map (λ item. (item, canceled_result)) items

answered-canceled_all : (items : List QueueItem) → answered (canceled_all items) ≡ items
answered-canceled_all [] = refl
answered-canceled_all (it ∷ items) = ap (λ t. it ∷ t) (answered-canceled_all items)

-- Of an item that ever arrived, each time it did it is in the queue, was answered, or was removed.
abbrev pub IsAccounted : QueueSystem → Type 0
IsAccounted s =
    (n : ℕ)
    → occurs n s.arrived
      ≡ occurs n s.manager.queue + occurs n (answered s.sent) + occurs n s.removed

module _ (float : Float64) (sort : Sort) where
  process_at-IsAccounted :
      (now : ℤ) (seen : QueueItem → Seen) (f : LoopPhase) (s : QueueSystem)
      → IsAccounted s
      → IsAccounted (process_at float sort now seen f s)
  process_at-IsAccounted now seen processing s h n =
      let r = process_queue float sort now seen s.manager s.rr_index s.pool in
      let (merged, _, _) =
        process_queue-Interleaves float sort now seen s.manager s.rr_index s.pool in
      rw
        (
          answered-append r.1.deliveries s.sent,
          occurs-append n (answered r.1.deliveries) (answered s.sent),
        )
        (omega (arith, h n, occurs-Interleaves n merged))
  process_at-IsAccounted now seen selecting s h n = h n
  process_at-IsAccounted now seen absent s h n = h n
  process_at-IsAccounted now seen returned s h n = h n

  queue_step-IsAccounted :
      (e : QueueEvent) (s : QueueSystem) → IsAccounted s → IsAccounted (queue_step float sort e s)
  unfolding queue_step enqueue remove_item drain notify push_item ensure_started
  queue_step-IsAccounted (enqueues item) s h n =
      rw (occurs-append n s.manager.queue (item ∷ [])) (omega (arith, h n))
  queue_step-IsAccounted receives_signal s h n = ground (arith, h n)
  queue_step-IsAccounted ticks s h n = h n
  queue_step-IsAccounted receives_stop s h n = h n
  queue_step-IsAccounted (processes now seen) s h n = process_at-IsAccounted now seen s.phase s h n
  queue_step-IsAccounted (removes item) s h n =
      rw (occurs-append n (taken_out item s.manager.queue) s.removed)
        (omega (arith, h n, occurs-without n item s.manager.queue))
  queue_step-IsAccounted drains s h n =
      rw
        (
          answered-append (canceled_all s.manager.queue) s.sent,
          answered-canceled_all s.manager.queue,
          occurs-append n s.manager.queue (answered s.sent),
        )
        (omega (arith, h n))

  queue_run-from :
      (es : List QueueEvent) (s : QueueSystem)
      → IsAccounted s
      → IsAccounted (queue_run float sort es s)
  unfolding queue_run
  queue_run-from [] s h = h
  queue_run-from (e ∷ es) s h =
      queue_run-from es (queue_step float sort e s) (queue_step-IsAccounted e s h)

  process_at-arrived :
      (now : ℤ) (seen : QueueItem → Seen) (f : LoopPhase) (s : QueueSystem)
      → (process_at float sort now seen f s).arrived ≡ s.arrived
  process_at-arrived now seen processing s = refl
  process_at-arrived now seen selecting s = refl
  process_at-arrived now seen absent s = refl
  process_at-arrived now seen returned s = refl

  -- Each call of `enqueue` makes an item of its own.
  abbrev pub IsFresh : QueueEvent → List QueueItem → Type 0
  IsFresh (enqueues item) items = occurs item.number items ≡ 0
  IsFresh receives_signal items = Unit
  IsFresh ticks items = Unit
  IsFresh receives_stop items = Unit
  IsFresh (processes now seen) items = Unit
  IsFresh (removes item) items = Unit
  IsFresh drains items = Unit

  abbrev pub AllFresh : List QueueEvent → QueueSystem → Type 0
  AllFresh [] s = Unit
  AllFresh (e ∷ es) s = IsFresh e s.arrived × AllFresh es (queue_step float sort e s)

  abbrev IsDistinct : QueueSystem → Type 0
  IsDistinct s = (n : ℕ) → occurs n s.arrived ≤ 1

  queue_step-IsDistinct :
      (e : QueueEvent) (s : QueueSystem)
      → IsFresh e s.arrived
      → IsDistinct s
      → IsDistinct (queue_step float sort e s)
  unfolding queue_step
  queue_step-IsDistinct (enqueues item) s new h n = ground (arith, h n)
  queue_step-IsDistinct receives_signal s new h n = ground (arith, h n)
  queue_step-IsDistinct ticks s new h n = h n
  queue_step-IsDistinct receives_stop s new h n = h n
  queue_step-IsDistinct (processes now seen) s new h n =
      rw (process_at-arrived now seen s.phase s) (h n)
  queue_step-IsDistinct (removes item) s new h n = h n
  queue_step-IsDistinct drains s new h n = h n

  queue_run-IsDistinct :
      (es : List QueueEvent) (s : QueueSystem)
      → AllFresh es s
      → IsDistinct s
      → IsDistinct (queue_run float sort es s)
  unfolding queue_run
  queue_run-IsDistinct [] s new h = h
  queue_run-IsDistinct (e ∷ es) s (new, later) h =
      queue_run-IsDistinct es (queue_step float sort e s) later (queue_step-IsDistinct e s new h)

  -- Over any run of the queue from its start, whatever arrives, is processed, canceled, drained or
  -- stopped and in whatever order, if each call of `enqueue` makes an item of its own: every item that
  -- arrived is in exactly one place, the queue, the answers or those that their calls took out, so
  -- none is lost; and none is sent two results, so no send on its channel, which holds one, waits
  -- while the queue is locked.
  pub queue_run-new_queue_system :
      (es : List QueueEvent) (p : Pool) (n : ℕ)
      → AllFresh es (new_queue_system p)
      → let s = queue_run float sort es (new_queue_system p) in
        (occurs n s.arrived
          ≡ occurs n s.manager.queue + occurs n (answered s.sent) + occurs n s.removed)
        × (occurs n s.arrived ≤ 1)
        × (occurs n (answered s.sent) ≤ 1)
  queue_run-new_queue_system es p n new =
      let h = queue_run-from es (new_queue_system p) (λ k. omega arith) n in
      let d = queue_run-IsDistinct es (new_queue_system p) new (λ k. omega arith) n in
      (h, d, omega arith)
