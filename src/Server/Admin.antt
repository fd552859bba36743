-- ===== src/Server/Admin.antt =====
-- server/server.go: `syncServers` and the handlers that change the configuration. `Get` copies a
-- configuration but not the array of its servers, so a handler that writes to the array of its copy
-- writes to that of the store.
use llm_bridge.Config.Types.{ServerConfig, Config}
use llm_bridge.Config.Store.{Yaml, WriteOutcome, Store, set_config}
use llm_bridge.Backend.Pool.{Pool, add_server, remove_server}
use llm_bridge.Discovery.State.{Discovery}
use llm_bridge.Discovery.State.{set_servers as set_discovery_servers}
use llm_bridge.Metrics.Collector.{Reals, Collector}
use llm_bridge.Metrics.Collector.{set_servers as set_metrics_servers}
use llm_bridge.Base.{
  ℕ, String, Bool, Option, none, some, List, [], ◌∷◌, ◌++◌, map, str_eq, if◌then◌else◌, any,
}
use llm_bridge.Base.Int.{ℤ}

-- The loop of `syncServers` over the servers.
unfoldable pub add_servers : List ServerConfig → Pool → Pool
add_servers [] p = p
add_servers (sc ∷ scs) p = add_servers scs (add_server sc p)

-- The fields of an update that are there.
pub record ServerPatch : Type 0 where
  pub url : Option String
  pub distance : Option ℤ
  pub max_concurrent_requests : Option ℤ

abbrev pub given {ℓ} : {A : Type ℓ} → Option A → A → A
given none a = a
given (some b) a = b

abbrev pub patch_server : ServerPatch → ServerConfig → ServerConfig
patch_server u sc = record {
  url = given u.url sc.url;
  distance = given u.distance sc.distance;
  max_concurrent_requests = given u.max_concurrent_requests sc.max_concurrent_requests;
}

abbrev pub after_server :
    ServerConfig
    → Option (ServerConfig × List ServerConfig)
    → Option (ServerConfig × List ServerConfig)
after_server sc none = none
after_server sc (some (found, scs)) = some (found, sc ∷ scs)

-- The loop that updates the first server with this URL: what it becomes, and the array.
unfoldable pub update_in :
    String → ServerPatch → List ServerConfig → Option (ServerConfig × List ServerConfig)
update_in id u [] = none
update_in id u (sc ∷ scs) =
    let rest = update_in id u scs in
    if str_eq sc.url id
    then some (patch_server u sc, patch_server u sc ∷ scs)
    else after_server sc rest

-- The array after its elements have moved down by one place: the last stands there twice.
unfoldable pub shifted : ServerConfig → List ServerConfig → List ServerConfig
shifted sc [] = sc ∷ []
shifted sc (next ∷ scs) = next ∷ shifted next scs

abbrev pub after_both :
    ServerConfig
    → Option (List ServerConfig × List ServerConfig)
    → Option (List ServerConfig × List ServerConfig)
after_both sc none = none
after_both sc (some (scs, array)) = some (sc ∷ scs, sc ∷ array)

-- The loop that deletes the first server with this URL: the servers left, and the array.
unfoldable pub delete_in :
    String → List ServerConfig → Option (List ServerConfig × List ServerConfig)
unfolding shifted
delete_in id [] = none
delete_in id (sc ∷ scs) =
    let rest = delete_in id scs in
    if str_eq sc.url id then some (scs, shifted sc scs) else after_both sc rest

module _ (reals : Reals) where
  pub record ServerState : Type 0 where
    pub store : Store
    pub pool : Pool
    pub discovery : Discovery
    pub metrics : Option (Collector reals)

  abbrev pub urls_of : List ServerConfig → List String
  urls_of scs = map (λ sc. sc.url) scs

  abbrev pub sync_metrics : List String → Option (Collector reals) → Option (Collector reals)
  sync_metrics urls none = none
  sync_metrics urls (some c) = some (set_metrics_servers reals urls c)

  unfoldable pub sync_servers : ServerState → ServerState
  sync_servers s =
      let scs = s.store.config.servers in
      record s {
        pool = add_servers scs s.pool;
        discovery = set_discovery_servers (urls_of scs) s.discovery;
        metrics = sync_metrics (urls_of scs) s.metrics;
      }

  -- The write to the array that the store's configuration shares.
  abbrev pub write_array : List ServerConfig → ServerState → ServerState
  write_array scs s = record s {
    store = record (s.store) { config = record (s.store.config) { servers = scs } };
  }

  abbrev pub drop_renamed : String → String → ServerState → ServerState
  drop_renamed id url s = if str_eq url id then s else record s { pool = remove_server id s.pool }

  module _ (yaml : Yaml) (parses : String → Bool) where
    -- `Set`, and what a handler does after it: the status of a failure, or the rest.
    unfoldable pub set_then :
        WriteOutcome → Config → ℕ → ℕ → (ServerState → ServerState) → ServerState → ServerState × ℕ
    set_then w cfg failed done rest s =
        let r = set_config yaml parses w cfg s.store in
        elim r.1 [
          | some e ↦ (record s { store = r.0 }, failed)
          | none ↦ (sync_servers (rest (record s { store = r.0 })), done)
        ]

    -- `handleAddServer`: the body as it is decoded.
    unfoldable pub handle_add_server :
        WriteOutcome → Option ServerConfig → ServerState → ServerState × ℕ
    unfolding set_then
    handle_add_server w none s = (s, 400)
    handle_add_server w (some sc) s =
        let cfg = s.store.config in
        if any (λ existing. str_eq existing.url sc.url) cfg.servers
        then (s, 409)
        else set_then w (record cfg { servers = cfg.servers ++ sc ∷ [] }) 400 201 (λ t. t) s

    -- `handleUpdateServer`, for an id and a body that decode.
    unfoldable pub handle_update_server :
        WriteOutcome → String → ServerPatch → ServerState → ServerState × ℕ
    unfolding set_then
    handle_update_server w id u s = elim (update_in id u s.store.config.servers) [
      | none ↦ (s, 404)
      | some (updated, scs) ↦
          set_then w (record (s.store.config) { servers = scs }) 400 200
            (drop_renamed id updated.url) (write_array scs s)
    ]

    -- `handleDeleteServer`, for an id that decodes.
    unfoldable pub handle_delete_server : WriteOutcome → String → ServerState → ServerState × ℕ
    unfolding set_then
    handle_delete_server w id s = elim (delete_in id s.store.config.servers) [
      | none ↦ (s, 404)
      | some (scs, array) ↦
          set_then w (record (s.store.config) { servers = scs }) 500 204
            (λ t. record t { pool = remove_server id t.pool }) (write_array array s)
    ]

    -- `handlePutConfig`: the body as it is parsed.
    unfoldable pub handle_put_config : WriteOutcome → Option Config → ServerState → ServerState × ℕ
    unfolding set_then
    handle_put_config w none s = (s, 400)
    handle_put_config w (some cfg) s = set_then w cfg 400 200 (λ t. t) s
