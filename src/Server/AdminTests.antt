-- ===== src/Server/AdminTests.antt =====
-- Tests of the model of the admin handlers in server/server.go, and their theorems at concrete inputs.
use llm_bridge.Config.Types.{ServerConfig, default_config, strategy_valid}
use llm_bridge.Config.Store.{
  Yaml, written, set_config, check, check_context, servers_error, server_error, save_locked,
}
use llm_bridge.Config.Accepted.{IsAcceptable}
use llm_bridge.Backend.Pool.{add_server, remove_server}
use llm_bridge.Discovery.State.{new_discovery}
use llm_bridge.Discovery.State.{set_servers as set_discovery_servers}
use llm_bridge.Metrics.Collector.{Reals}
use llm_bridge.Server.Admin.{
  add_servers, ServerPatch, update_in, shifted, delete_in, ServerState, sync_servers, set_then,
  handle_add_server, handle_update_server, handle_delete_server, handle_put_config,
}
use llm_bridge.Server.Refused.{
  kept, replaced, IsPatched, with_servers, handle_update_server-refused,
  handle_delete_server-refused,
}
use llm_bridge.Base.{
  ℕ, String, ◌≡◌, refl, eq_iff, Bool, true, none, some, List, [], ◌∷◌, arith, lookup, insert, erase,
}
use llm_bridge.Base.Int.{pos}

abbrev pub no_reals : Reals
no_reals = record { Real = ℕ; zero_real = 0; rate = λ n dt. 0; time_sub = λ a b. pos 0 }

abbrev pub saves : Yaml
saves = record { unmarshal = λ s. none; marshal = λ cfg. some "saved" }

abbrev pub any_url : String → Bool
any_url s = true

abbrev pub server : String → ℕ → ServerConfig
server url distance = record { url = url; distance = pos distance; max_concurrent_requests = pos 2 }

abbrev pub state : List ServerConfig → ServerState no_reals
state scs = record {
  store = record { config = record default_config { servers = scs }; file = none };
  pool = record { clients = ("a", record { server = server "a" 1; inflight = pos 1 }) ∷ [] };
  discovery = new_discovery;
  metrics = none;
}

abbrev pub a_and_b : List ServerConfig
a_and_b = server "a" 1 ∷ server "b" 2 ∷ []

abbrev pub too_far : ServerPatch
too_far = record { url = none; distance = some (pos 11); max_concurrent_requests = none }

admin_model : Unit {0}
unfolding handle_add_server handle_update_server handle_delete_server handle_put_config set_then
    sync_servers add_servers update_in delete_in shifted set_config check check_context
    servers_error server_error save_locked strategy_valid add_server remove_server
    set_discovery_servers lookup insert erase
admin_model = tt

admin_tests :
    ((handle_add_server no_reals saves any_url written (some (server "c" 3)) (state a_and_b)).1
      ≡ 201)
    × ((handle_add_server no_reals saves any_url written (some (server "b" 3)) (state a_and_b)).1
        ≡ 409)
    × ((handle_update_server no_reals saves any_url written "b" too_far (state a_and_b)).1 ≡ 400)
    × ((handle_delete_server no_reals saves any_url written "a" (state a_and_b)).1 ≡ 204)
    × ((handle_delete_server no_reals saves any_url written "c" (state a_and_b)).1 ≡ 404)
    × (lookup "a"
          (handle_put_config no_reals saves any_url written
            (some default_config)
            (state a_and_b)).0.pool.clients
        ≡ some (record { server = server "a" 1; inflight = pos 1 }))
unfolding admin_model
admin_tests = (refl, refl, refl, refl, refl, refl)

put_status :
    (handle_put_config no_reals saves any_url written (some default_config) (state a_and_b)).1 ≡ 200
unfolding admin_model
put_status = refl

delete_status : (handle_delete_server no_reals saves any_url written "a" (state a_and_b)).1 ≡ 204
unfolding admin_model
delete_status = refl

abbrev b_too_far : List ServerConfig
b_too_far = server "a" 1 ∷ server "b" 11 ∷ []

b_too_far-refused : ¬ IsAcceptable any_url (record default_config { servers = b_too_far })
b_too_far-refused h = let (a, (b, c)) = h.usable in omega (arith, b.distance_max)

-- The update of the second server gives it a distance that is too large.
too_far-IsPatched : IsPatched too_far (server "b" 2) (server "b" 11)
too_far-IsPatched = record { url = kept; distance = replaced; capacity = kept }

handle_update_server-refused_example :
    handle_update_server no_reals saves any_url written "b" too_far (state a_and_b)
    ≡ (with_servers no_reals b_too_far (state a_and_b), 400)
handle_update_server-refused_example =
    handle_update_server-refused no_reals any_url saves written "b" too_far (state a_and_b)
      (server "a" 1 ∷ []) [] (server "b" 2) (server "b" 11) refl
      ((λ e. ground (arith, e, eq_iff "a" "b")), tt) refl too_far-IsPatched b_too_far-refused

-- A file may hold a server that `Set` would not accept.
abbrev from_file : List ServerConfig
from_file = server "c" 3 ∷ b_too_far

handle_delete_server-refused_example :
    handle_delete_server no_reals saves any_url written "c" (state from_file) ≡ (
      with_servers no_reals (server "a" 1 ∷ server "b" 11 ∷ server "b" 11 ∷ []) (state from_file),
      500,
    )
handle_delete_server-refused_example =
    handle_delete_server-refused no_reals any_url saves written "c" (state from_file) []
      (server "a" 1 ∷ []) (server "c" 3) (server "b" 11) refl tt refl b_too_far-refused
