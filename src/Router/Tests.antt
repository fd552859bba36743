-- ===== src/Router/Tests.antt =====
-- Tests of router/router.go's model, and its theorems at concrete inputs.
use llm_bridge.Config.Types.{ServerConfig}
use llm_bridge.Backend.Pool.{canceled, Client, Pool, acquire, add_inflight, inflight, get_server}
use llm_bridge.Discovery.State.{Discovery, servers_for_model}
use llm_bridge.Router.Select.{
  ServerInfo, collect, try_server, try_from, groups, groups_from, try_groups, start_index,
}
use llm_bridge.Router.Rotation.{try_groups-rotates}
use llm_bridge.Router.Overrun.{try_groups-overruns}
use llm_bridge.Router.Best.{best_of, best_from, better, ratio}
use llm_bridge.Router.Route.{
  Outcome, connected, no_servers, all_busy, queued, Routed, fall_back, route_sorted, route_infos,
  route,
}
use llm_bridge.Router.Chosen.{IsChosen, route-IsChosen}
use llm_bridge.Router.Models.{
  insert_info, insertion_sort, by_insertion, millionths, millionths-IsIeee,
}
use llm_bridge.Base.{
  ℕ, String, ◌≡◌, refl, Bool, true, false, none, some, List, [], ◌∷◌, arith, All, lookup, insert,
}
use llm_bridge.Base.Int.{pos, ◌≤ℤ◌, add64}

unfoldable pub router_model : Unit {0}
unfolding route route_infos route_sorted fall_back best_of best_from better ratio try_groups
    try_from try_server groups groups_from collect get_server acquire add_inflight inflight
    servers_for_model lookup insert add64 insertion_sort insert_info
router_model = tt

abbrev server : String → ℕ → ℕ → ServerConfig
server url distance max = record {
  url = url;
  distance = pos distance;
  max_concurrent_requests = pos max;
}

abbrev client : String → ℕ → ℕ → ℕ → String × Client
client url distance max n = (url, record { server = server url distance max; inflight = pos n })

-- Two near servers, one of them full, and a far one.
abbrev pub three : Pool
three = record { clients = client "far" 3 5 0 ∷ client "a" 1 1 1 ∷ client "b" 1 2 1 ∷ [] }

abbrev all_full : Pool
all_full = record { clients = client "a" 1 1 1 ∷ client "b" 1 4 5 ∷ [] }

abbrev pub known : Discovery
known = record {
  servers = [];
  models = ("m", "far" ∷ "a" ∷ "b" ∷ []) ∷ [];
  model_details = [];
  healthy = ("far", true) ∷ ("a", true) ∷ ("b", true) ∷ [];
}

abbrev go : String → Bool → Pool → Routed
go strategy allow_queue p = route millionths by_insertion strategy allow_queue none "m" known [] p

abbrev to : String → Outcome
to url = connected (record { server_id = url })

route_tests :
    ((go "error" true three).outcome ≡ to "b")
    × ((go "error" true all_full).outcome ≡ all_busy)
    × ((go "queue" true all_full).outcome ≡ queued)
    × ((go "queue" false all_full).outcome ≡ all_busy)
    × ((go "best_effort" true all_full).outcome ≡ to "a")
    × ((route millionths by_insertion "error" true none "n" known [] three).outcome ≡ no_servers)
    × ((route millionths by_insertion "error" true (some canceled) "m" known [] three).outcome
        ≡ all_busy)
unfolding router_model
route_tests = (refl, refl, refl, refl, refl, refl, refl)

pub three-capacity : All (λ si. pos 1 ≤ℤ si.max_conn) (collect three (servers_for_model "m" known))
unfolding router_model
three-capacity = omega arith

route-IsChosen_example :
    IsChosen millionths millionths-IsIeee "error" true
      (collect three (servers_for_model "m" known))
      three
      (go "error" true three)
route-IsChosen_example =
    route-IsChosen millionths by_insertion millionths-IsIeee "error" true "m" known [] three
      three-capacity

abbrev info : String → ℕ → ℕ → ServerInfo
info url max n = record { url = url; distance = pos 1; max_conn = pos max; inflight = pos n }

abbrev pair : List ServerInfo
pair = info "a" 1 1 ∷ info "b" 2 1 ∷ []

-- The second request of a round over two servers.
try_groups-rotates_example :
    (try_groups none "m" (pair ∷ []) (("m", 1) ∷ []) three
      ≡ (("m", 2) ∷ [], (acquire none "b" three).0, some (record { server_id = "b" })))
    × (start_index "m" pair (try_groups none "m" (pair ∷ []) (("m", 1) ∷ []) three).0 ≡ 0)
unfolding lookup insert
try_groups-rotates_example =
    try_groups-rotates "m" pair [] (("m", 1) ∷ []) three (info "b" 2 1) (omega arith) refl refl
      (λ e. cc)

abbrev one_left : ServerInfo
one_left = info "b" 2 1

abbrev one_group : List (List ServerInfo)
one_group = (one_left ∷ []) ∷ []

-- Two slots, one of them free, and three requests in flight in the end.
try_groups-overruns_example :
    let first = try_groups none "m" one_group [] three in
    let second = try_groups none "m" one_group [] first.1 in
    (first.2 ≡ some (record { server_id = "b" }))
    × (second.2 ≡ some (record { server_id = "b" }))
    × (inflight "b" second.1 ≡ pos 3)
unfolding router_model
try_groups-overruns_example = try_groups-overruns "m" "m" one_left [] [] three refl (λ e. cc)
