-- ===== src/Server/Sound.antt =====
-- What holds of the pool and of the discovery of server/server.go through any use of them.
use llm_bridge.Config.Types.{ServerConfig, Config}
use llm_bridge.Config.Store.{Yaml, WriteOutcome, set_config}
use llm_bridge.Config.Accepted.{IsUsable}
use llm_bridge.Config.Persist.{set_config-cases}
use llm_bridge.Backend.Pool.{remove_server}
use llm_bridge.Discovery.State.{RawMessage, servers_for_model, set_servers as set_discovery_servers}
use llm_bridge.Discovery.Aligned.{IsAligned, visit_server-IsAligned}
use llm_bridge.Router.Select.{collect}
use llm_bridge.Metrics.Collector.{Reals}
use llm_bridge.Server.Admin.{
  ServerPatch, update_in, delete_in, ServerState, sync_servers, write_array, drop_renamed, set_then,
  handle_add_server, handle_update_server, handle_delete_server, handle_put_config,
}
use llm_bridge.Server.Synced.{lookup-sync_servers, set_then-cases}
use llm_bridge.Server.System.{
  Operation, adds, updates, deletes, puts, visits, acquires, releases, operate, operate_all,
}
use llm_bridge.Base.{
  ℕ, String, ◌≡◌, refl, sym, ap, subst, inl, inr, Bool, Option, none, some, List, [], ◌∷◌, str_eq,
  Bool-cases, Option-cases, any, All,
}
use llm_bridge.Base.Int.{pos, ◌≤ℤ◌}
use llm_bridge.Server.Sane.{
  IsSane, last_named-IsSaneConfig, renewed-IsSaneClient, acquire-IsSane, release-IsSane,
  remove_server-IsSane, collect-capacity,
}

module _ (parses : String → Bool) where
  module _ (reals : Reals) where
    sync_servers-IsSane :
        (s : ServerState reals)
        → All (IsUsable parses) s.store.config.servers
        → IsSane parses s.pool
        → IsSane parses (sync_servers reals s).pool
    sync_servers-IsSane s u h j = rw (lookup-sync_servers reals s j) (
        renewed-IsSaneClient parses j _ _
          (last_named-IsSaneConfig parses j s.store.config.servers u) (h j))

    sync_servers-discovery :
        (s : ServerState reals) → IsAligned s.discovery → IsAligned (sync_servers reals s).discovery
    unfolding sync_servers set_discovery_servers
    sync_servers-discovery s a = record {
      unique = a.unique;
      same_keys = a.same_keys;
      served = a.served;
    }

    -- The pool is sane, and the models and their metadata are aligned.
    abbrev pub IsSound : ServerState reals → Type 0
    IsSound s = IsSane parses s.pool × IsAligned s.discovery

    module _ (yaml : Yaml) where
      set_then-IsSound :
          (w : WriteOutcome) (cfg : Config) (failed done : ℕ)
          (rest : ServerState reals → ServerState reals) (s : ServerState reals)
          → ((t : ServerState reals) → (rest t).store ≡ t.store)
          → ((t : ServerState reals) → IsSound t → IsSound (rest t))
          → IsSound s
          → IsSound (set_then reals yaml parses w cfg failed done rest s).0
      set_then-IsSound w cfg failed done rest s keeps holds h =
          elim (set_then-cases reals yaml parses w cfg failed done rest s) [
            | inl (e, k, r) ↦ rw r h
            | inr (k, r) ↦ rw r (elim (set_config-cases yaml parses w cfg s.store) [
              | inr (bad, (x, q)) ↦ absurd (let b = ap (λ t. t.1) q in cc)
              | inl (good, q) ↦
                  let t = record s { store = (set_config yaml parses w cfg s.store).0 } in
                  let (p, a) = holds t h in
                  (
                    sync_servers-IsSane (rest t)
                        (subst (λ st. All (IsUsable parses) st.config.servers) (sym (keeps t))
                          (subst (λ c. All (IsUsable parses) c.servers) (sym q) good.usable))
                        p,
                    sync_servers-discovery (rest t) a,
                  )
            ])
          ]

      drop-IsSound :
          (id : String) (s : ServerState reals)
          → IsSound s
          → IsSound (record s { pool = remove_server id s.pool })
      drop-IsSound id s (p, a) = (remove_server-IsSane parses id s.pool p, a)

      drop_renamed-IsSound :
          (id url : String) (s : ServerState reals)
          → IsSound s
          → IsSound (drop_renamed reals id url s)
      drop_renamed-IsSound id url s h = elim (Bool-cases (str_eq url id)) [
        | inl e ↦ rw e h
        | inr e ↦ rw e (drop-IsSound id s h)
      ]

      drop_renamed-store :
          (id url : String) (s : ServerState reals) → (drop_renamed reals id url s).store ≡ s.store
      drop_renamed-store id url s = elim (Bool-cases (str_eq url id)) [
        | inl e ↦ rw e
        | inr e ↦ rw e
      ]

      handle_add_server-IsSound :
          (w : WriteOutcome) (body : Option ServerConfig) (s : ServerState reals)
          → IsSound s
          → IsSound (handle_add_server reals yaml parses w body s).0
      unfolding handle_add_server
      handle_add_server-IsSound w none s h = h
      handle_add_server-IsSound w (some sc) s h =
          let there = any (λ existing. str_eq existing.url sc.url) s.store.config.servers in
          elim (Bool-cases there) [
            | inl e ↦ rw e h
            | inr e ↦ rw e (set_then-IsSound w _ 400 201 (λ t. t) s (λ t. refl) (λ t k. k) h)
          ]

      handle_update_server-IsSound :
          (w : WriteOutcome) (id : String) (u : ServerPatch) (s : ServerState reals)
          → IsSound s
          → IsSound (handle_update_server reals yaml parses w id u s).0
      unfolding handle_update_server
      handle_update_server-IsSound w id u s h =
          elim (Option-cases (update_in id u s.store.config.servers)) [
            | inl e ↦ rw (e, handle_update_server) h
            | inr ((updated, scs), e) ↦
                rw (e, handle_update_server)
                  (set_then-IsSound w _ 400 200 (drop_renamed reals id updated.url)
                    (write_array reals scs s) (drop_renamed-store id updated.url)
                    (drop_renamed-IsSound id updated.url) h)
          ]

      handle_delete_server-IsSound :
          (w : WriteOutcome) (id : String) (s : ServerState reals)
          → IsSound s
          → IsSound (handle_delete_server reals yaml parses w id s).0
      unfolding handle_delete_server
      handle_delete_server-IsSound w id s h =
          elim (Option-cases (delete_in id s.store.config.servers)) [
            | inl e ↦ rw (e, handle_delete_server) h
            | inr ((scs, array), e) ↦
                rw (e, handle_delete_server)
                  (set_then-IsSound w _ 500 204 (λ t. record t { pool = remove_server id t.pool })
                    (write_array reals array s) (λ t. refl) (drop-IsSound id) h)
          ]

      handle_put_config-IsSound :
          (w : WriteOutcome) (body : Option Config) (s : ServerState reals)
          → IsSound s
          → IsSound (handle_put_config reals yaml parses w body s).0
      unfolding handle_put_config
      handle_put_config-IsSound w none s h = h
      handle_put_config-IsSound w (some cfg) s h =
          set_then-IsSound w cfg 400 200 (λ t. t) s (λ t. refl) (λ t k. k) h

      module _ (model_id : RawMessage → Option String) where
        operate-IsSound :
            (o : Operation reals yaml parses model_id) (s : ServerState reals)
            → IsSound s
            → IsSound (operate reals yaml parses model_id o s)
        unfolding operate
        operate-IsSound (adds w sc) s h = handle_add_server-IsSound w sc s h
        operate-IsSound (updates w id u) s h = handle_update_server-IsSound w id u s h
        operate-IsSound (deletes w id) s h = handle_delete_server-IsSound w id s h
        operate-IsSound (puts w body) s h = handle_put_config-IsSound w body s h
        operate-IsSound (visits url ctx reply) s h =
            (h.0, visit_server-IsAligned model_id url ctx reply s.discovery h.1)
        operate-IsSound (acquires ctx id) s h = (acquire-IsSane parses ctx id s.pool h.0, h.1)
        operate-IsSound (releases c) s h = (release-IsSane parses c s.pool h.0, h.1)

        operate_all-IsSound :
            (os : List (Operation reals yaml parses model_id)) (s : ServerState reals)
            → IsSound s
            → IsSound (operate_all reals yaml parses model_id os s)
        unfolding operate_all
        operate_all-IsSound [] s h = h
        operate_all-IsSound (o ∷ os) s h =
            operate_all-IsSound os (operate reals yaml parses model_id o s) (operate-IsSound o s h)

        -- Through any sequence of admin requests, visits of polls, acquisitions and releases, whatever
        -- they carry and whether they succeed: every client of the pool is that of a server that the
        -- checks of `Set` accept, under its own URL, also after updates that were refused; the models
        -- and their metadata stay aligned; and so every candidate that `route` gathers, for any model,
        -- has a positive capacity. If the first two hold at the start.
        pub operate_all-collect :
            (os : List (Operation reals yaml parses model_id)) (s : ServerState reals)
            → IsSound s
            → let t = operate_all reals yaml parses model_id os s in
              IsSane parses t.pool
              × IsAligned t.discovery
              × ((model : String)
                  → All
                      (λ sj. pos 1 ≤ℤ sj.max_conn)
                      (collect t.pool (servers_for_model model t.discovery)))
        operate_all-collect os s h =
            let (p, a) = operate_all-IsSound os s h in
            (p, a, λ model. collect-capacity parses _ _ p)
