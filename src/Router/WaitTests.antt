-- ===== src/Router/WaitTests.antt =====
-- Tests of one call of `enqueue` in router/queue.go with the pool, and its theorem at concrete runs.
use llm_bridge.Backend.Pool.{Conn, acquire, inflight, release}
use llm_bridge.Backend.Counts.{Reach, start, step, acquires}
use llm_bridge.Router.Models.{by_insertion, millionths}
use llm_bridge.Router.Slots.{sys}
use llm_bridge.Router.Queue.{QueueItem, answer, Seen, retry}
use llm_bridge.Router.Waiter.{enqueued, cancel, WaiterRun}
use llm_bridge.Router.Wait.{Scene, own, elsewhere, serves, gives_up, SceneRun, at_start, goes_on}
use llm_bridge.Router.Waited.{SceneRun-Reach}
use llm_bridge.Router.Tests.{three, known, router_model}
use llm_bridge.Base.{◌≡◌, refl, false, none, some, [], ◌∷◌, ◌++◌}
use llm_bridge.Base.Int.{pos}

abbrev asked : QueueItem
asked = record { number = 0; model = "m"; deadline = pos 90 }

abbrev seen : Seen
seen = record { strategy = "queue"; context = none; discovery = known }

abbrev to_far : Conn
to_far = record { server_id = "far" }

abbrev to_b : Conn
to_b = record { server_id = "b" }

abbrev started : Scene
started = record { pool = three; held = []; waiter = enqueued }

-- Another request takes a slot of the server that is far.
abbrev busier : Scene
busier = record started { pool = (acquire none "far" three).0; held = to_far ∷ [] }

abbrev answered : Scene
answered = record busier {
  pool = (retry millionths by_insertion seen asked [] busier.pool).pool;
  waiter = record enqueued {
    queued = false;
    channel = some (answer to_b);
    delivered = some (answer to_b);
  };
}

-- The context is done; the connection is in the channel, and is released.
abbrev given_back : Scene
given_back = record answered { pool = release to_b answered.pool; waiter = cancel answered.waiter }

run : SceneRun millionths by_insertion asked started given_back
unfolding router_model
run =
    goes_on
      (goes_on
        (goes_on at_start (elsewhere busier.pool (to_far ∷ []) (step start (acquires none "far"))))
        (serves seen [] to_b refl refl))
      (gives_up refl)

wait_tests :
    (inflight "b" answered.pool ≡ pos 2)
    × (inflight "b" given_back.pool ≡ pos 1)
    × (own answered.waiter ≡ to_b ∷ [])
    × (own given_back.waiter ≡ [])
unfolding router_model cancel release
wait_tests = (refl, refl, refl, refl)

SceneRun-Reach_example :
    Reach (sys three []) (sys given_back.pool (own given_back.waiter ++ given_back.held))
    × WaiterRun enqueued given_back.waiter
SceneRun-Reach_example = SceneRun-Reach millionths by_insertion asked three [] given_back run
