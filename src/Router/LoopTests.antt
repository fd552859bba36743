-- ===== src/Router/LoopTests.antt =====
-- Tests of the queue's goroutine of router/queue.go, and its theorems at concrete inputs.
use llm_bridge.Router.Models.{by_insertion, millionths}
use llm_bridge.Router.Answered.{answered}
use llm_bridge.Router.Queue.{QueueItem, Seen}
use llm_bridge.Router.Tests.{three, known}
use llm_bridge.Router.QueueTests.{queue_model}
use llm_bridge.Router.Loop.{
  selecting, returned, QueueSystem, new_queue_system, QueueEvent, enqueues, receives_signal, ticks,
  receives_stop, processes, removes, queue_step, queue_run,
}
use llm_bridge.Router.Once.{occurs, AllFresh, queue_run-new_queue_system}
use llm_bridge.Router.Stopped.{IsStopped, queue_run-receives_stop}
use llm_bridge.Base.{ℕ, ◌+◌, ◌≤◌, ◌≡◌, refl, ◌≢◌, ◌⊎◌, true, false, none, List, [], ◌∷◌, map}
use llm_bridge.Base.Int.{pos}

loop_model : Unit {0}
unfolding queue_model queue_step queue_run
loop_model = tt

abbrev item : ℕ → ℕ → QueueItem
item number deadline = record { number = number; model = "m"; deadline = pos deadline }

abbrev seen : QueueItem → Seen
seen it = record { strategy = "queue"; context = none; discovery = known }

-- Two items arrive, one is canceled, the other served; the goroutine is told to stop while it
-- processes, and again at its select; a third item arrives after that.
abbrev events : List QueueEvent
events =
    enqueues (item 0 90)
    ∷ enqueues (item 1 90)
    ∷ receives_signal
    ∷ removes (item 1 90)
    ∷ receives_stop
    ∷ processes (pos 20) seen
    ∷ receives_stop
    ∷ enqueues (item 2 30)
    ∷ ticks
    ∷ processes (pos 99) seen
    ∷ []

abbrev final : QueueSystem
final = queue_run millionths by_insertion events (new_queue_system three)

abbrev numbers : List QueueItem → List ℕ
numbers items = map (λ it. it.number) items

loop_tests :
    (final.phase ≡ returned)
    × (numbers final.manager.queue ≡ 2 ∷ [])
    × (numbers (answered final.sent) ≡ 0 ∷ [])
    × (numbers final.removed ≡ 1 ∷ [])
unfolding loop_model
loop_tests = (refl, refl, refl, refl)

events-AllFresh : AllFresh millionths by_insertion events (new_queue_system three)
unfolding loop_model
events-AllFresh = (refl, (refl, (tt, (tt, (tt, (tt, (tt, (refl, (tt, (tt, tt))))))))))

queue_run-new_queue_system_example :
    (occurs 2 final.arrived
      ≡ occurs 2 final.manager.queue + occurs 2 (answered final.sent) + occurs 2 final.removed)
    × (occurs 2 final.arrived ≤ 1)
    × (occurs 2 (answered final.sent) ≤ 1)
queue_run-new_queue_system_example =
    queue_run-new_queue_system millionths by_insertion events three 2 events-AllFresh

abbrev idle : QueueSystem
idle = record (new_queue_system three) {
  manager = record { queue = []; signalled = false; started = true };
  phase = selecting;
}

abbrev later : List QueueEvent
later = enqueues (item 2 30) ∷ ticks ∷ processes (pos 99) seen ∷ []

queue_run-receives_stop_example :
    ((idle.phase ≡ selecting)
      × IsStopped [] (queue_run millionths by_insertion (receives_stop ∷ later) idle))
    ⊎ ((idle.phase ≢ selecting)
        × (queue_run millionths by_insertion (receives_stop ∷ later) idle
            ≡ queue_run millionths by_insertion later idle))
queue_run-receives_stop_example =
    queue_run-receives_stop millionths by_insertion later idle refl (refl, (refl, (refl, tt)))
