-- ===== src/Server/ProxyTests.antt =====
-- Tests of the model of `handleOpenAIProxy` in server/server.go, and its theorems at concrete inputs.
use llm_bridge.Backend.Pool.{Pool, acquire, add_inflight, release, get_server, inflight}
use llm_bridge.Backend.Counts.{Reach, start}
use llm_bridge.Discovery.State.{Discovery, servers_for_model}
use llm_bridge.Router.Select.{collect, groups, groups_from, try_server, try_from, try_groups}
use llm_bridge.Router.Models.{by_insertion, insertion_sort, insert_info, millionths}
use llm_bridge.Router.Slots.{sys}
use llm_bridge.Router.Route.{fall_back, route_sorted, route_infos, route}
use llm_bridge.Server.Proxy.{
  Body, asks_for, queue_timeout_error, route_failed, Waited, ProxyReply, proxy_failed, replied,
  Front, proxy_with, route_or_wait, handle_open_ai_proxy,
}
use llm_bridge.Server.Proxied.{IsFair, handle_open_ai_proxy-Reach}
use llm_bridge.Base.{ℕ, ◌≡◌, refl, true, none, [], ◌∷◌, lookup, insert}
use llm_bridge.Base.Int.{pos, add64}

abbrev two_slots : Pool
two_slots = record {
  clients =
      (
        "a",
        record {
          server = record { url = "a"; distance = pos 1; max_concurrent_requests = pos 2 };
          inflight = pos 1;
        },
      )
      ∷ [];
}

abbrev pub knows_a : Discovery
knows_a = record {
  servers = "a" ∷ [];
  models = ("m", "a" ∷ []) ∷ [];
  model_details = [];
  healthy = ("a", true) ∷ [];
}

abbrev pub times_out : Pool → Waited
times_out p = record { pool = p; result = route_failed queue_timeout_error }

pub times_out-IsFair : IsFair [] times_out
times_out-IsFair p = start

abbrev pub front : Front
front = record { pool = two_slots; rr_index = []; reqs_success = pos 4; reqs_error = pos 1 }

abbrev handled : ProxyReply → Body → Front × ℕ
handled reply body =
    handle_open_ai_proxy millionths by_insertion "queue" none knows_a times_out reply body front

proxy_tests :
    ((handled (replied 200) (asks_for "m")).1 ≡ 200)
    × ((handled (replied 200) (asks_for "m")).0.reqs_success ≡ pos 5)
    × (inflight "a" (handled (replied 200) (asks_for "m")).0.pool ≡ pos 1)
    × ((handled proxy_failed (asks_for "m")).0.reqs_error ≡ pos 2)
    × ((handled proxy_failed (asks_for "n")).1 ≡ 503)
    × ((handled proxy_failed (asks_for "")).1 ≡ 400)
unfolding handle_open_ai_proxy route_or_wait proxy_with route route_infos route_sorted fall_back
    try_groups try_from try_server groups groups_from collect get_server acquire add_inflight
    inflight release servers_for_model lookup insert add64 insertion_sort insert_info
proxy_tests = (refl, refl, refl, refl, refl, refl)

handle_open_ai_proxy-Reach_example :
    Reach (sys two_slots []) (sys (handled (replied 200) (asks_for "m")).0.pool [])
handle_open_ai_proxy-Reach_example =
    handle_open_ai_proxy-Reach millionths by_insertion "queue" none knows_a times_out (replied 200)
      (asks_for "m") front [] times_out-IsFair
