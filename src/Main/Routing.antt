-- ===== src/Main/Routing.antt =====
-- `route` of router/router.go in a program that cmd/llm-bridge/main.go has started.
use llm_bridge.Config.Env.{Env}
use llm_bridge.Config.Store.{Yaml, ReadOutcome, WriteOutcome, Store}
use llm_bridge.Config.Accepted.{IsUsable}
use llm_bridge.Discovery.State.{RawMessage, servers_for_model}
use llm_bridge.Router.Select.{collect}
use llm_bridge.Router.Best.{Float64, IsIeee}
use llm_bridge.Router.Route.{Sort, route}
use llm_bridge.Router.Chosen.{IsChosen, route-IsChosen}
use llm_bridge.Metrics.Collector.{Reals}
use llm_bridge.Server.Admin.{ServerState}
use llm_bridge.Server.Synced.{last_named}
use llm_bridge.Server.Sane.{IsSaneClient, renewed-IsSaneClient, last_named-IsSaneConfig}
use llm_bridge.Server.System.{Operation, operate_all}
use llm_bridge.Server.Sound.{IsSound, operate_all-collect}
use llm_bridge.Main.Boot.{boot}
use llm_bridge.Main.Ready.{IsReady, boot-IsReady}
use llm_bridge.Base.{ℕ, String, ◌≡◌, sym, subst, Bool, Option, none, some, List, All, Dict}

IsReady-IsSound :
    (parses : String → Bool) (reals : Reals) (s : ServerState reals)
    → All (IsUsable parses) s.store.config.servers
    → IsReady reals s
    → IsSound parses reals s
IsReady-IsSound parses reals s usable r = (
  (λ j. subst (IsSaneClient parses j) (sym (r.pooled j)) (
      renewed-IsSaneClient parses j (last_named j s.store.config.servers) none
        (last_named-IsSaneConfig parses j s.store.config.servers usable) tt)),
  r.aligned,
)

module _ (float : Float64) (sort : Sort) (ieee : IsIeee float) (reals : Reals) (yaml : Yaml)
    (parses : String → Bool) (model_id : RawMessage → Option String) where
  -- From the start of the program on, if the servers of the file that it loaded are ones that `Set`
  -- would accept: after any admin requests, visits of polls, acquisitions and releases, whatever they
  -- carry and whether they succeed, `route` with a live context does for every model and strategy what
  -- `IsChosen` describes: it connects to a candidate with room such that all nearer ones are full,
  -- under `best_effort`, if all are full, to one with the least load ratio; it reports that there is no
  -- candidate; or, if all are full, it waits in the queue or refuses. Quotients compare as IEEE 754 has
  -- it.
  pub route-boot :
      (env : Env) (r : ReadOutcome) (w : WriteOutcome) (store : Store) (s : ServerState reals)
      (os : List (Operation reals yaml parses model_id)) (strategy : String) (allow_queue : Bool)
      (model : String) (rr : Dict ℕ)
      → boot reals yaml env r w store ≡ some s
      → All (IsUsable parses) s.store.config.servers
      → let t = operate_all reals yaml parses model_id os s in
        IsChosen float ieee strategy allow_queue
          (collect t.pool (servers_for_model model t.discovery))
          t.pool
          (route float sort strategy allow_queue none model t.discovery rr t.pool)
  route-boot env r w store s os strategy allow_queue model rr h usable =
      let sound =
        IsReady-IsSound parses reals s usable (boot-IsReady reals yaml env r w store s h) in
      let (_, _, capacity) = operate_all-collect parses reals yaml model_id os s sound in
      let t = operate_all reals yaml parses model_id os s in
      route-IsChosen float sort ieee strategy allow_queue model t.discovery rr t.pool
        (capacity model)
