-- ===== src/Server/QueuedTests.antt =====
-- Tests of a request of server/server.go that waits in the queue, and its theorem at a concrete run.
use llm_bridge.Backend.Pool.{Pool, Conn, acquire, add_inflight, inflight, release, get_server}
use llm_bridge.Backend.Counts.{Reach, start, step, releases, first}
use llm_bridge.Discovery.State.{servers_for_model}
use llm_bridge.Router.Models.{by_insertion, insertion_sort, insert_info, millionths}
use llm_bridge.Router.Select.{collect, groups, groups_from, try_server, try_from, try_groups}
use llm_bridge.Router.Slots.{sys}
use llm_bridge.Router.Route.{queued, Routed, fall_back, route_sorted, route_infos, route}
use llm_bridge.Router.Queue.{QueueItem, answer, Seen, retry}
use llm_bridge.Router.Waiter.{enqueued, send, receive}
use llm_bridge.Router.Wait.{Scene, elsewhere, serves, takes, SceneRun, at_start, goes_on}
use llm_bridge.Server.Proxy.{
  asks_for, canceled_error, replied, Front, proxy_with, route_or_wait, handle_open_ai_proxy,
}
use llm_bridge.Server.ProxyTests.{knows_a}
use llm_bridge.Server.Queued.{waited_in, handle_open_ai_proxy-SceneRun}
use llm_bridge.Base.{ℕ, ◌≡◌, refl, ◌⊎◌, true, none, some, [], ◌∷◌, lookup, insert}
use llm_bridge.Base.Int.{pos, add64}

unfoldable server_run_model : Unit {0}
unfolding handle_open_ai_proxy route_or_wait proxy_with route route_infos route_sorted fall_back
    try_groups try_from try_server groups groups_from collect get_server acquire add_inflight
    inflight release servers_for_model lookup insert add64 insertion_sort insert_info
server_run_model = tt

-- One slot, which another request holds.
abbrev one_slot : Pool
one_slot = record {
  clients =
      (
        "a",
        record {
          server = record { url = "a"; distance = pos 1; max_concurrent_requests = pos 1 };
          inflight = pos 1;
        },
      )
      ∷ [];
}

abbrev to_a : Conn
to_a = record { server_id = "a" }

abbrev front : Front
front = record { pool = one_slot; rr_index = []; reqs_success = pos 4; reqs_error = pos 1 }

abbrev asked : QueueItem
asked = record { number = 0; model = "m"; deadline = pos 90 }

abbrev seen : Seen
seen = record { strategy = "queue"; context = none; discovery = knows_a }

abbrev routed : Routed
routed = route millionths by_insertion "queue" true none "m" knows_a [] one_slot

waits : routed.outcome ≡ queued
unfolding server_run_model
waits = refl

abbrev waiting_scene : Scene
waiting_scene = record { pool = routed.pool; held = to_a ∷ []; waiter = enqueued }

-- The other request ends.
abbrev freed : Scene
freed = record waiting_scene { pool = release to_a routed.pool; held = [] }

abbrev served : Scene
served = record freed {
  pool = (retry millionths by_insertion seen asked [] freed.pool).pool;
  waiter = receive (answer to_a) (send (answer to_a) enqueued);
}

run : SceneRun millionths by_insertion asked waiting_scene served
unfolding server_run_model
run =
    goes_on
      (goes_on (goes_on at_start (elsewhere freed.pool [] (step start (releases to_a [] first))))
        (serves seen [] to_a refl refl))
      (takes (answer to_a) refl refl)

abbrev handled : Front × ℕ
handled =
    handle_open_ai_proxy millionths by_insertion "queue" none knows_a
      (λ p. waited_in served (some to_a) canceled_error) (replied 200) (asks_for "m") front

queued_tests :
    (handled.1 ≡ 200) × (inflight "a" served.pool ≡ pos 1) × (inflight "a" handled.0.pool ≡ pos 0)
unfolding server_run_model
queued_tests = (refl, refl, refl)

handle_open_ai_proxy-SceneRun_example :
    Reach (sys one_slot (to_a ∷ [])) (sys handled.0.pool [])
    × ((some to_a ≡ none) ⊎ (served.waiter.channel ≡ none))
handle_open_ai_proxy-SceneRun_example =
    handle_open_ai_proxy-SceneRun millionths by_insertion "queue" none knows_a "m" (replied 200)
      front (to_a ∷ []) asked served (some to_a) canceled_error refl waits run refl
