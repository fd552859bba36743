-- ===== src/Server/Synced.antt =====
-- What the handlers of server/server.go that change the configuration leave in the pool and in the
-- store.
use llm_bridge.Config.Types.{ServerConfig, Config}
use llm_bridge.Config.Store.{Yaml, WriteOutcome, StoreError, set_config}
use llm_bridge.Config.Accepted.{IsAcceptable}
use llm_bridge.Config.Persist.{set_config-cases}
use llm_bridge.Backend.Pool.{Client, Pool, add_server, remove_server}
use llm_bridge.Metrics.Collector.{Reals}
use llm_bridge.Server.Admin.{
  add_servers, delete_in, ServerState, sync_servers, write_array, set_then, handle_delete_server,
  handle_put_config,
}
use llm_bridge.Base.{
  ℕ, String, ◌≡◌, refl, sym, ap, ◌∙◌, ◌⊎◌, inl, inr, Bool, Option, none, some, List, [], ◌∷◌, arith,
  str_eq, if◌then◌else◌, Bool-cases, Option-cases, lookup, lookup-insert, lookup-erase_self,
}
use llm_bridge.Base.Int.{pos}

abbrev pub fresh : ServerConfig → Client
fresh sc = record { server = sc; inflight = pos 0 }

-- The client of a server once it has been added, if it has been.
abbrev pub renewed : Option ServerConfig → Option Client → Option Client
renewed none client = client
renewed (some sc) client = some (fresh sc)

abbrev pub or_last : Option ServerConfig → Option ServerConfig → Option ServerConfig
or_last none first = first
or_last (some sc) first = some sc

-- The last server of a list with this URL.
abbrev pub last_named : String → List ServerConfig → Option ServerConfig
last_named j [] = none
last_named j (sc ∷ scs) = or_last (last_named j scs) (if str_eq sc.url j then some sc else none)

renewed-or_last :
    (a b : Option ServerConfig) (client : Option Client)
    → renewed (or_last a b) client ≡ renewed a (renewed b client)
renewed-or_last none b client = refl
renewed-or_last (some sc) b client = refl

lookup-add_server :
    (sc : ServerConfig) (j : String) (p : Pool)
    → lookup j (add_server sc p).clients
      ≡ renewed (if str_eq sc.url j then some sc else none) (lookup j p.clients)
unfolding add_server
lookup-add_server sc j p =
    lookup-insert sc.url j (fresh sc) p.clients
    ∙ elim (Bool-cases (str_eq sc.url j)) [ inl e ↦ rw e refl | inr e ↦ rw e refl ]

pub lookup-add_servers :
    (scs : List ServerConfig) (j : String) (p : Pool)
    → lookup j (add_servers scs p).clients ≡ renewed (last_named j scs) (lookup j p.clients)
unfolding add_servers
lookup-add_servers [] j p = refl
lookup-add_servers (sc ∷ scs) j p =
    lookup-add_servers scs j (add_server sc p)
    ∙ ap (renewed (last_named j scs)) (lookup-add_server sc j p)
    ∙ sym (renewed-or_last (last_named j scs) _ (lookup j p.clients))

lookup-remove_server : (id : String) (p : Pool) → lookup id (remove_server id p).clients ≡ none
unfolding remove_server
lookup-remove_server id p = lookup-erase_self id p.clients

module _ (reals : Reals) where
  -- `syncServers` starts the client of every server of the configuration anew, counter included, and
  -- leaves every other client of the pool alone, also those of servers that are configured no more.
  pub lookup-sync_servers :
      (s : ServerState reals) (j : String)
      → lookup j (sync_servers reals s).pool.clients
        ≡ renewed (last_named j s.store.config.servers) (lookup j s.pool.clients)
  unfolding sync_servers
  lookup-sync_servers s j = lookup-add_servers s.store.config.servers j s.pool

  pub sync_servers-store : (s : ServerState reals) → (sync_servers reals s).store ≡ s.store
  unfolding sync_servers
  sync_servers-store s = refl

  module _ (yaml : Yaml) (parses : String → Bool) where
    pub set_then-cases :
        (w : WriteOutcome) (cfg : Config) (failed done : ℕ)
        (rest : ServerState reals → ServerState reals) (s : ServerState reals)
        → let r = set_config yaml parses w cfg s.store in
          let t = set_then reals yaml parses w cfg failed done rest s in
          ((e : StoreError) × (r.1 ≡ some e) × (t ≡ (record s { store = r.0 }, failed)))
          ⊎ ((r.1 ≡ none) × (t ≡ (sync_servers reals (rest (record s { store = r.0 })), done)))
    unfolding set_then
    set_then-cases w cfg failed done rest s =
        let r = set_config yaml parses w cfg s.store in
        elim (Option-cases r.1) [
          | inl h ↦ inr (h, rw (h, set_then) refl)
          | inr (e, h) ↦ inl (e, h, rw (h, set_then) refl)
        ]

    pub set_then-refused :
        (w : WriteOutcome) (cfg : Config) (failed done : ℕ)
        (rest : ServerState reals → ServerState reals) (s : ServerState reals)
        → ¬ IsAcceptable parses cfg
        → set_then reals yaml parses w cfg failed done rest s ≡ (s, failed)
    set_then-refused w cfg failed done rest s bad =
        elim (set_config-cases yaml parses w cfg s.store) [
          | inl (good, k) ↦ absurd (bad good)
          | inr (rejects, (x, k)) ↦ elim (set_then-cases w cfg failed done rest s) [
            | inl (e, h, r) ↦ r ∙ ap (λ q. (record s { store = q.0 }, failed)) k
            | inr (h, r) ↦ absurd (let b = ap (λ q. q.1) k in cc)
          ]
        ]

    -- After a `PUT` of a configuration that succeeds, the servers of the configuration in force are in
    -- the pool with nothing in flight, and every other client stays as it was: a server that the new
    -- configuration drops is not removed.
    pub handle_put_config-pool :
        (w : WriteOutcome) (body : Option Config) (s : ServerState reals) (j : String)
        → (handle_put_config reals yaml parses w body s).1 ≡ 200
        → let t = (handle_put_config reals yaml parses w body s).0 in
          lookup j t.pool.clients
          ≡ renewed (last_named j t.store.config.servers) (lookup j s.pool.clients)
    unfolding handle_put_config
    handle_put_config-pool w none s j h = absurd (ground (arith, h))
    handle_put_config-pool w (some cfg) s j h = elim (set_then-cases w cfg 400 200 (λ t. t) s) [
      | inl (e, k, r) ↦ absurd (let b = ap (λ t. t.1) r in ground (arith, h, b))
      | inr (k, r) ↦
          let t = record s { store = (set_config yaml parses w cfg s.store).0 } in
          rw (r, sync_servers-store t) (lookup-sync_servers t j)
    ]

    -- After a `DELETE` that succeeds, the pool has a client for the server only if the configuration
    -- lists it once more.
    pub handle_delete_server-pool :
        (w : WriteOutcome) (id : String) (s : ServerState reals)
        → (handle_delete_server reals yaml parses w id s).1 ≡ 204
        → let t = (handle_delete_server reals yaml parses w id s).0 in
          lookup id t.pool.clients ≡ renewed (last_named id t.store.config.servers) none
    unfolding handle_delete_server
    handle_delete_server-pool w id s h = elim (Option-cases (delete_in id s.store.config.servers)) [
      | inl e ↦ absurd (let b = rw (e, handle_delete_server) at h in ground (arith, b))
      | inr ((scs, array), e) ↦
          let cfg = record (s.store.config) { servers = scs } in
          let s' = write_array reals array s in
          let drop = λ (t : ServerState reals). record t { pool = remove_server id t.pool } in
          elim (set_then-cases w cfg 500 204 drop s') [
            | inl (x, k, r) ↦ absurd (
                let b = rw (e, handle_delete_server) at h in
                let c = ap (λ t. t.1) r in ground (arith, b, c))
            | inr (k, r) ↦
                let t = drop (record s' { store = (set_config yaml parses w cfg s'.store).0 }) in
                rw (e, handle_delete_server, r, sync_servers-store t)
                  (lookup-sync_servers t id
                    ∙ ap (renewed (last_named id t.store.config.servers))
                        (lookup-remove_server id s.pool))
          ]
    ]
