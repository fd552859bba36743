-- ===== src/Router/QueueTests.antt =====
-- Tests of router/queue.go's model, and its theorems at concrete inputs.
use llm_bridge.Backend.Pool.{Conn}
use llm_bridge.Discovery.State.{servers_for_model}
use llm_bridge.Router.Select.{ServerInfo, collect}
use llm_bridge.Router.Models.{by_insertion, millionths, millionths-IsIeee}
use llm_bridge.Backend.Counts.{Reach}
use llm_bridge.Router.Slots.{sys}
use llm_bridge.Router.Queue.{
  QueueItem, answer, QueueManager, Delivery, Seen, Processed, process_items, process_queue, drain,
  enqueue, ensure_started, push_item, notify, remove_item, without, deadline_of, is_overdue,
}
use llm_bridge.Router.Answered.{
  Interleaves, answered, IsDue, process_queue-Interleaves, process_queue-Reach, hold,
  process_queue-serves,
}
use llm_bridge.Router.Waiter.{
  Waiter, returned, enqueued, send, receive, cancel, WaiterRun, begin, next, sends, receives,
  WaiterRun-fate, canceled_late, WaiterRun-canceled_late,
}
use llm_bridge.Router.Tests.{three, known, router_model, three-capacity}
use llm_bridge.Base.{
  ℕ, ◌≡◌, refl, ◌⊎◌, true, false, none, some, List, [], ◌∷◌, map, arith, length, All, Memᴰ,
}
use llm_bridge.Base.Int.{pos}

unfoldable pub queue_model : Unit {0}
unfolding router_model process_queue process_items enqueue ensure_started push_item notify
    remove_item without deadline_of drain cancel
queue_model = tt

abbrev item : ℕ → ℕ → QueueItem
item number deadline = record { number = number; model = "m"; deadline = pos deadline }

-- The first is overdue at instant 20; one of the other two finds room.
abbrev three_items : QueueManager
three_items = record {
  queue =
      item 0 10
      ∷ item 1 90
      ∷ item 2 90
      ∷ item 3 90
      ∷ item 4 90
      ∷ item 5 90
      ∷ item 6 90
      ∷ item 7 90
      ∷ [];
  signalled = true;
  started = true;
}

abbrev seen : QueueItem → Seen
seen it = record { strategy = "queue"; context = none; discovery = known }

abbrev pass : QueueManager × Processed
pass = process_queue millionths by_insertion (pos 20) seen three_items [] three

abbrev numbers : List QueueItem → List ℕ
numbers items = map (λ it. it.number) items

-- Six slots are free.
queue_tests :
    (numbers pass.0.queue ≡ 7 ∷ [])
    × (numbers (answered pass.1.deliveries) ≡ 0 ∷ 1 ∷ 2 ∷ 3 ∷ 4 ∷ 5 ∷ 6 ∷ [])
    × (numbers (enqueue (item 8 1) three_items).queue ≡ 0 ∷ 1 ∷ 2 ∷ 3 ∷ 4 ∷ 5 ∷ 6 ∷ 7 ∷ 8 ∷ [])
    × (numbers (remove_item (item 2 90) three_items).queue ≡ 0 ∷ 1 ∷ 3 ∷ 4 ∷ 5 ∷ 6 ∷ 7 ∷ [])
    × (length (drain three_items).1 ≡ 8)
    × (deadline_of (pos 5) (pos 30) none ≡ pos 30000000005)
    × (deadline_of (pos 5) (pos 30) (some (pos 77)) ≡ pos 77)
unfolding queue_model
queue_tests = (refl, refl, refl, refl, refl, refl, refl)

process_queue-Interleaves_example :
    Interleaves (answered pass.1.deliveries) pass.0.queue three_items.queue
    × All (IsDue (pos 20)) pass.1.deliveries
    × All (λ it. is_overdue (pos 20) it ≡ false) pass.0.queue
process_queue-Interleaves_example =
    process_queue-Interleaves millionths by_insertion (pos 20) seen three_items [] three

abbrev one_item : QueueManager
one_item = record { queue = item 1 90 ∷ []; signalled = false; started = true }

abbrev far : ServerInfo
far = record { url = "far"; distance = pos 3; max_conn = pos 5; inflight = pos 0 }

far_listed : Memᴰ far (collect three (servers_for_model "m" known))
unfolding router_model
far_listed = Memᴰ.head refl

process_queue-serves_example :
    (c : Conn) × (ds : List Delivery) × ((process_queue millionths by_insertion
        (pos 20)
        seen
        one_item
        []
        three).1.deliveries
      ≡ (item 1 90, answer c) ∷ ds)
process_queue-serves_example =
    process_queue-serves millionths by_insertion (pos 20) seen millionths-IsIeee one_item
      (item 1 90) [] [] three far refl refl refl three-capacity far_listed (omega arith)

process_queue-Reach_example : Reach (sys three []) (sys pass.1.pool (hold pass.1.deliveries []))
process_queue-Reach_example =
    process_queue-Reach millionths by_insertion (pos 20) seen three_items [] three []

abbrev to_far : Conn
to_far = record { server_id = "far" }

abbrev served : Waiter
served = receive (answer to_far) (send (answer to_far) enqueued)

WaiterRun-fate_example :
    (served.channel ≡ some (answer to_far))
    ⊎ (served.phase ≡ returned (some to_far))
    ⊎ ((served.phase ≡ returned none) × (served.released ≡ to_far ∷ []))
WaiterRun-fate_example =
    WaiterRun-fate to_far served
      (next (next begin (sends (answer to_far) refl)) (receives (answer to_far) refl refl)) refl

WaiterRun-canceled_late_example :
    WaiterRun enqueued (canceled_late to_far)
    × ((canceled_late to_far).phase ≡ returned none)
    × ((canceled_late to_far).channel ≡ some (answer to_far))
    × ((canceled_late to_far).released ≡ [])
WaiterRun-canceled_late_example = WaiterRun-canceled_late to_far (canceled_late to_far) begin
