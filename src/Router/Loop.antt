-- ===== src/Router/Loop.antt =====
-- The goroutine of router/queue.go, `run`, and what acts on its queue beside it: the calls of
-- `enqueue`, `removeItem`, `drain` and `stop`. One event is what one of them does while it has the
-- mutex or the channel.
use llm_bridge.Backend.Pool.{Pool}
use llm_bridge.Router.Best.{Float64}
use llm_bridge.Router.Route.{Sort}
use llm_bridge.Router.Queue.{
  QueueItem, QueueManager, new_queue_manager, enqueue, remove_item, Delivery, Seen, process_queue,
  drain,
}
use llm_bridge.Base.{ℕ, Bool, true, false, ◌&&◌, List, [], ◌∷◌, ◌++◌, ◌==◌, if◌then◌else◌, Dict}
use llm_bridge.Base.Int.{ℤ}

-- Where `run` is: not started, at its select, in `processQueue`, or returned.
pub data LoopPhase : Type 0 where
  absent selecting processing returned : LoopPhase

-- The queue, the goroutine, and what a pass changes. `arrived`, `sent` and `removed` record the
-- history, which the code does not keep: the items that were ever appended, the results that were
-- ever sent, and the items that their own calls took out again.
pub record QueueSystem : Type 0 where
  pub manager : QueueManager
  pub phase : LoopPhase
  pub rr_index : Dict ℕ
  pub pool : Pool
  pub arrived : List QueueItem
  pub sent : List Delivery
  pub removed : List QueueItem

abbrev pub new_queue_system : Pool → QueueSystem
new_queue_system p = record {
  manager = new_queue_manager;
  phase = absent;
  rr_index = [];
  pool = p;
  arrived = [];
  sent = [];
  removed = [];
}

pub data QueueEvent : Type 0 where
  enqueues : QueueItem → QueueEvent
  receives_signal ticks receives_stop : QueueEvent
  processes : ℤ → (QueueItem → Seen) → QueueEvent
  removes : QueueItem → QueueEvent
  drains : QueueEvent

-- `go qm.run()`, the first time.
abbrev pub started_phase : Bool → LoopPhase → LoopPhase
started_phase true f = f
started_phase false f = selecting

-- A case of the select of `run` is taken.
abbrev pub at_select : LoopPhase → LoopPhase → LoopPhase
at_select target selecting = target
at_select target absent = absent
at_select target processing = processing
at_select target returned = returned

abbrev pub is_selecting : LoopPhase → Bool
is_selecting selecting = true
is_selecting absent = false
is_selecting processing = false
is_selecting returned = false

unfoldable pub taken_out : QueueItem → List QueueItem → List QueueItem
taken_out item [] = []
taken_out item (it ∷ items) = if it.number == item.number then it ∷ [] else taken_out item items

module _ (float : Float64) (sort : Sort) where
  abbrev pub process_at : ℤ → (QueueItem → Seen) → LoopPhase → QueueSystem → QueueSystem
  process_at now seen processing s =
      let r = process_queue float sort now seen s.manager s.rr_index s.pool in
      record s {
        manager = r.0;
        phase = selecting;
        rr_index = r.1.rr_index;
        pool = r.1.pool;
        sent = r.1.deliveries ++ s.sent;
      }
  process_at now seen selecting s = s
  process_at now seen absent s = s
  process_at now seen returned s = s

  unfoldable pub queue_step : QueueEvent → QueueSystem → QueueSystem
  unfolding taken_out
  queue_step (enqueues item) s = record s {
    manager = enqueue item s.manager;
    phase = started_phase s.manager.started s.phase;
    arrived = item ∷ s.arrived;
  }
  queue_step receives_signal s =
      if is_selecting s.phase && s.manager.signalled
      then record s { manager = record (s.manager) { signalled = false }; phase = processing }
      else s
  queue_step ticks s = record s { phase = at_select processing s.phase }
  queue_step receives_stop s = record s { phase = at_select returned s.phase }
  queue_step (processes now seen) s = process_at now seen s.phase s
  queue_step (removes item) s = record s {
    manager = remove_item item s.manager;
    removed = taken_out item s.manager.queue ++ s.removed;
  }
  queue_step drains s = let r = drain s.manager in record s { manager = r.0; sent = r.1 ++ s.sent }

  unfoldable pub queue_run : List QueueEvent → QueueSystem → QueueSystem
  queue_run [] s = s
  queue_run (e ∷ es) s = queue_run es (queue_step e s)
