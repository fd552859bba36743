-- ===== src/Backend/Tests.antt =====
-- Tests of backend/backend.go's model, and its theorems at concrete inputs.
use llm_bridge.Config.Types.{ServerConfig}
use llm_bridge.Backend.Pool.{
  canceled, Client, Pool, Conn, new_pool, add_inflight, acquire, release, inflight, add_server,
  get_server,
}
use llm_bridge.Backend.Counts.{
  System, Reach, start, step, acquires, adds, IsAccounted, Reach-inflight,
}
use llm_bridge.Backend.Replaced.{release_all, release_all-add_server}
use llm_bridge.Base.{◌≡◌, refl, none, some, [], ◌∷◌, arith, lookup, insert}
use llm_bridge.Base.Int.{pos, negsuc, add64, FitsInt64}

pool_model : Unit {0}
unfolding acquire release add_inflight inflight add_server get_server lookup insert add64
pool_model = tt

abbrev near : ServerConfig
near = record { url = "http://a"; distance = pos 1; max_concurrent_requests = pos 2 }

abbrev near_pool : Pool
near_pool = record { clients = ("http://a", record { server = near; inflight = pos 0 }) ∷ [] }

abbrev to_near : Conn
to_near = record { server_id = "http://a" }

pool_tests :
    (add_server near new_pool ≡ near_pool)
    × (inflight "http://a" (acquire none "http://a" near_pool).0 ≡ pos 1)
    × (inflight "http://a" (acquire (some canceled) "http://a" near_pool).0 ≡ pos 0)
    × (inflight "http://a" (release to_near near_pool) ≡ negsuc 0)
unfolding pool_model
pool_tests = (refl, refl, refl, refl)

abbrev empty_system : System
empty_system = record { pool = new_pool; held = [] }

abbrev busy : System
busy = record { pool = (acquire none "http://a" near_pool).0; held = to_near ∷ [] }

empty-IsAccounted : IsAccounted empty_system
unfolding lookup
empty-IsAccounted id bc e = cc

history : Reach empty_system busy
unfolding pool_model
history = step (step start (adds near refl refl)) (acquires none "http://a")

Reach-inflight_example : inflight "http://a" busy.pool ≡ pos 1
unfolding pool_model
Reach-inflight_example = Reach-inflight "http://a" empty-IsAccounted history (λ e. cc) (omega arith)

release_all-add_server_example :
    inflight "http://a" (release_all (to_near ∷ to_near ∷ []) (add_server near busy.pool))
    ≡ negsuc 1
release_all-add_server_example =
    release_all-add_server near (to_near ∷ to_near ∷ []) busy.pool (omega arith)

near_fits : (bc : Client) → lookup "http://a" near_pool.clients ≡ some bc → FitsInt64 bc.inflight
unfolding lookup
near_fits bc e = ground arith
