-- ===== src/Router/Route.antt =====
-- router/router.go: `route`. The sort of the standard library promises an ordered permutation and
-- no more, so it is a parameter with that law.
use llm_bridge.Config.Types.{fallback_best_effort, fallback_queue}
use llm_bridge.Backend.Pool.{Context, Pool, Conn, Acquired, conn, failed, acquire}
use llm_bridge.Discovery.State.{Discovery, servers_for_model}
use llm_bridge.Router.Select.{ServerInfo, collect, groups, try_groups}
use llm_bridge.Router.Groups.{ByDistance}
use llm_bridge.Router.Best.{Float64, best_of}
use llm_bridge.Base.{
  ℕ, String, Bool, ◌&&◌, none, some, List, [], ◌∷◌, str_eq, if◌then◌else◌, Permᴰ, Dict,
}

-- `sort.Slice` by distance.
pub record Sort : Type 0 where
  pub sort : List ServerInfo → List ServerInfo
  pub sort-perm : (infos : List ServerInfo) → Permᴰ (sort infos) infos
  pub sort-ByDistance : (infos : List ServerInfo) → ByDistance (sort infos)

-- How `route` ends; `queued` stands for the call of `enqueue`.
pub data Outcome : Type 0 where
  connected : Conn → Outcome
  no_servers all_busy queued : Outcome

-- The round-robin indices by model, the pool, and the outcome.
pub record Routed : Type 0 where
  pub rr_index : Dict ℕ
  pub pool : Pool
  pub outcome : Outcome

-- The end of `route`: the queue, or an error.
abbrev pub wait_or_fail : String → Bool → Outcome
wait_or_fail strategy allow_queue =
    if str_eq strategy fallback_queue && allow_queue then queued else all_busy

module _ (float : Float64) (sort : Sort) where
  abbrev pub take_best : String → Bool → Dict ℕ → Pool × Acquired → Routed
  take_best strategy allow_queue rr (p, conn c) = record {
    rr_index = rr;
    pool = p;
    outcome = connected c;
  }
  take_best strategy allow_queue rr (p, failed e) = record {
    rr_index = rr;
    pool = p;
    outcome = wait_or_fail strategy allow_queue;
  }

  -- What happens when no candidate has room.
  unfoldable pub fall_back : String → Bool → Context → List ServerInfo → Dict ℕ → Pool → Routed
  fall_back strategy allow_queue ctx infos rr p =
      if str_eq strategy fallback_best_effort
      then (elim (best_of float infos) [
        | none ↦ record { rr_index = rr; pool = p; outcome = wait_or_fail strategy allow_queue }
        | some best ↦ take_best strategy allow_queue rr (acquire ctx best.url p)
      ])
      else record { rr_index = rr; pool = p; outcome = wait_or_fail strategy allow_queue }

  unfoldable pub route_sorted :
      String → Bool → Context → String → List ServerInfo → Dict ℕ → Pool → Routed
  route_sorted strategy allow_queue ctx model infos rr p =
      let r = try_groups ctx model (groups infos) rr p in
      elim r.2 [
        | some c ↦ record { rr_index = r.0; pool = r.1; outcome = connected c }
        | none ↦ fall_back strategy allow_queue ctx infos r.0 r.1
      ]

  unfoldable pub route_infos :
      String → Bool → Context → String → List ServerInfo → Dict ℕ → Pool → Routed
  route_infos strategy allow_queue ctx model [] rr p = record {
    rr_index = rr;
    pool = p;
    outcome = no_servers;
  }
  route_infos strategy allow_queue ctx model (si ∷ infos) rr p =
      route_sorted strategy allow_queue ctx model (sort.sort (si ∷ infos)) rr p

  -- `route`: the strategy of the configuration, whether the queue may be used, and the context. No
  -- servers for the model means no candidates.
  unfoldable pub route : String → Bool → Context → String → Discovery → Dict ℕ → Pool → Routed
  route strategy allow_queue ctx model d rr p =
      route_infos strategy allow_queue ctx model (collect p (servers_for_model model d)) rr p
