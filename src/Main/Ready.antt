-- ===== src/Main/Ready.antt =====
-- What cmd/llm-bridge/main.go has built when its server starts.
use llm_bridge.Config.Types.{ServerConfig}
use llm_bridge.Config.Env.{Env}
use llm_bridge.Config.Store.{Yaml, ReadOutcome, WriteOutcome, StoreError, Store, load}
use llm_bridge.Config.Valid.{IsRunnable, load-IsRunnable}
use llm_bridge.Backend.Pool.{Client, new_pool}
use llm_bridge.Backend.Counts.{IsAccounted}
use llm_bridge.Discovery.State.{new_discovery, set_servers, servers_for_model}
use llm_bridge.Discovery.Aligned.{IsAligned}
use llm_bridge.Metrics.Collector.{
  Reals, Collector, new_collector, set_servers as set_metrics_servers,
}
use llm_bridge.Metrics.Covered.{mem, lookup-set_servers}
use llm_bridge.Server.Admin.{ServerState, urls_of, sync_servers}
use llm_bridge.Server.Synced.{renewed, last_named, lookup-sync_servers}
use llm_bridge.Main.Boot.{new_server, booted, boot}
use llm_bridge.Base.{
  String, ◌≡◌, refl, sym, ap, subst, ◌∙◌, inl, inr, Option, none, some, [], arith, Bool-cases,
  is_some, lookup,
}
use llm_bridge.Base.Int.{pos, wrap64}

-- The configuration is runnable; the pool has the configured servers, with nothing in flight, and no
-- other; the discovery polls them in order and offers none for any model, its models and
-- metadata aligned; the collector has an entry
-- for each of them and for no other.
pub record IsReady (reals : Reals) (s : ServerState reals) : Type 0 where
  pub runnable : IsRunnable s.store.config.global
  pub pooled :
      (j : String) → lookup j s.pool.clients ≡ renewed (last_named j s.store.config.servers) none
  pub accounted : IsAccounted (record { pool = s.pool; held = [] })
  pub polled : s.discovery.servers ≡ urls_of reals s.store.config.servers
  pub aligned : IsAligned s.discovery
  pub unserved : (model : String) → servers_for_model model s.discovery ≡ []
  pub collector : Collector reals
  pub metrics : s.metrics ≡ some collector
  pub collected :
      (u : String)
      → is_some (lookup u collector.data_of) ≡ mem u (urls_of reals s.store.config.servers)

renewed-inflight :
    (sc : Option ServerConfig) (bc : Client) → renewed sc none ≡ some bc → bc.inflight ≡ pos 0
renewed-inflight none bc h = cc
renewed-inflight (some sc) bc h = ground arith

module _ (reals : Reals) where
  abbrev start : Store → ServerState reals
  start store =
      new_server reals store (set_servers (urls_of reals store.config.servers) new_discovery)
        new_pool (new_collector reals)

  pooled :
      (store : Store) (j : String)
      → lookup j (start store).pool.clients ≡ renewed (last_named j store.config.servers) none
  unfolding new_server lookup
  pooled store j =
      lookup-sync_servers reals
        (record {
          store = store;
          pool = new_pool;
          discovery = set_servers (urls_of reals store.config.servers) new_discovery;
          metrics = some (new_collector reals);
        })
        j
      ∙ refl

  collected :
      (store : Store) (u : String)
      → let urls = urls_of reals store.config.servers in
        is_some (lookup u (set_metrics_servers reals urls (new_collector reals)).data_of)
        ≡ mem u urls
  collected store u =
      let urls = urls_of reals store.config.servers in
      ap is_some (lookup-set_servers reals urls u (new_collector reals))
      ∙ elim (Bool-cases (mem u urls)) [ inl e ↦ rw e refl | inr e ↦ rw e refl ]

  booted-eq_some :
      (r : Store × Option StoreError) (s : ServerState reals)
      → booted reals r ≡ some s
      → (r.1 ≡ none) × (start r.0 ≡ s)
  booted-eq_some (store, some e) s h = cc
  booted-eq_some (store, none) s h = (refl, cc)

  start-IsReady : (store : Store) → IsRunnable store.config.global → IsReady reals (start store)
  unfolding new_server sync_servers set_servers servers_for_model lookup wrap64
  start-IsReady store good = record {
    runnable = good;
    pooled = pooled store;
    accounted = λ id bc h.
        renewed-inflight (last_named id store.config.servers) bc (sym (pooled store id) ∙ h);
    polled = refl;
    aligned = record { unique = tt; same_keys = λ m. refl; served = λ m e. cc };
    unserved = λ model. refl;
    collector = _;
    metrics = refl;
    collected = λ u. collected store u;
  }

  -- A program that has loaded its configuration starts ready, whatever the file and the environment
  -- held: nothing is in flight, no server is missing in the pool, in the discovery or in the collector
  -- and none is there that is not configured. Until the first poll, no server is offered for any
  -- model.
  pub boot-IsReady :
      (yaml : Yaml) (env : Env) (r : ReadOutcome) (w : WriteOutcome) (store : Store)
      (s : ServerState reals)
      → boot reals yaml env r w store ≡ some s
      → IsReady reals s
  unfolding boot
  boot-IsReady yaml env r w store s h =
      let (good, same) = booted-eq_some (load yaml env r w store) s h in
      subst (IsReady reals) same
        (start-IsReady (load yaml env r w store).0 (load-IsRunnable yaml env r w store good))
