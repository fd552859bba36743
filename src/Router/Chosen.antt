-- ===== src/Router/Chosen.antt =====
-- What `route` of router/router.go promises: which server it chooses, and when it refuses.
use mathlib.Core.List.Permᴰ
use llm_bridge.Config.Types.{fallback_best_effort, fallback_queue}
use llm_bridge.Backend.Pool.{Pool, Conn, Acquired, conn, acquire}
use llm_bridge.Discovery.State.{Discovery, servers_for_model}
use llm_bridge.Router.Select.{ServerInfo, collect, groups, try_groups}
use llm_bridge.Router.Try.{IsRegistered}
use llm_bridge.Router.Groups.{
  ByDistance, concat-groups, groups-IsGroup, try_groups-IsPlaced, try_groups-none,
}
use llm_bridge.Router.Best.{Float64, IsIeee, best_of, IsBest, best_of-IsBest}
use llm_bridge.Router.Route.{
  Sort, connected, no_servers, all_busy, queued, Routed, take_best, fall_back, route_sorted,
  route_infos, route,
}
use llm_bridge.Router.Placed.{
  IsFull, IsFull-of_no_room, has_room-lt, IsPlaced-listed, IsPlaced-nearer, acquire-known,
  collect-IsRegistered, All-perm, Permᴰ-nil, best_of-none,
}
use llm_bridge.Base.{
  ℕ, String, ◌≡◌, refl, sym, ap, subst, ◌≢◌, inl, inr, Bool, true, false, none, List, [], ◌∷◌,
  str_eq-cases, Bool-cases, Option-cases, All, Memᴰ, Permᴰ, Permᴰ-Memᴰ, All-Memᴰ, All-of_Memᴰ, Dict,
}
use llm_bridge.Base.Int.{pos, ◌≤ℤ◌, ◌<ℤ◌}

-- What `route` may do with a live context, given the candidates: connect to one with room such that
-- all nearer ones are full; under `best_effort`, when all are full, to one with the least load ratio;
-- report that there is none; or, when all are full, wait in the queue or refuse.
module _ (float : Float64) (ieee : IsIeee float) where
  pub data IsChosen (strategy : String) (allow_queue : Bool) (infos : List ServerInfo) (p : Pool)
      (r : Routed) : Type 0 where
    nearest :
        (si : ServerInfo)
        → Memᴰ si infos
        → si.inflight <ℤ si.max_conn
        → ((sj : ServerInfo) → Memᴰ sj infos → sj.distance <ℤ si.distance → IsFull sj)
        → r.outcome ≡ connected (record { server_id = si.url })
        → r.pool ≡ (acquire none si.url p).0
        → IsChosen strategy allow_queue infos p r
    least_loaded :
        (si : ServerInfo)
        → strategy ≡ fallback_best_effort
        → All IsFull infos
        → IsBest float ieee infos si
        → r.outcome ≡ connected (record { server_id = si.url })
        → r.pool ≡ (acquire none si.url p).0
        → IsChosen strategy allow_queue infos p r
    unserved :
        infos ≡ [] → r.outcome ≡ no_servers → r.pool ≡ p → IsChosen strategy allow_queue infos p r
    waiting :
        strategy ≡ fallback_queue
        → allow_queue ≡ true
        → All IsFull infos
        → r.outcome ≡ queued
        → r.pool ≡ p
        → IsChosen strategy allow_queue infos p r
    refused :
        strategy ≢ fallback_best_effort
        → (strategy ≡ fallback_queue → allow_queue ≡ false)
        → infos ≢ []
        → All IsFull infos
        → r.outcome ≡ all_busy
        → r.pool ≡ p
        → IsChosen strategy allow_queue infos p r

module _ (float : Float64) (sort : Sort) (ieee : IsIeee float) where
  take_best-conn :
      (strategy : String) (allow_queue : Bool) (rr : Dict ℕ) (a : Pool × Acquired) {c : Conn}
      → a.1 ≡ conn c
      → take_best float sort strategy allow_queue rr a
        ≡ record { rr_index = rr; pool = a.0; outcome = connected c }
  take_best-conn strategy allow_queue rr (p, a) e = rw e refl

  fall_back-IsChosen :
      (strategy : String) (allow_queue : Bool) (infos : List ServerInfo) (rr : Dict ℕ) (p : Pool)
      → infos ≢ []
      → All (IsRegistered p) infos
      → All (λ si. pos 1 ≤ℤ si.max_conn) infos
      → All IsFull infos
      → IsChosen float ieee strategy allow_queue infos p
          (fall_back float sort strategy allow_queue none infos rr p)
  unfolding fall_back
  fall_back-IsChosen strategy allow_queue infos rr p some_info known capacity full =
      elim (str_eq-cases strategy fallback_best_effort) [
        | inl (t, e) ↦ elim (Option-cases (best_of float infos)) [
          | inl b ↦ absurd (some_info (best_of-none float infos b))
          | inr (best, b) ↦
              let is_best = best_of-IsBest float ieee infos capacity b in
              let a =
                acquire-known best.url p (All-Memᴰ (IsRegistered p) infos is_best.listed known) in
              rw (t, fall_back, b)
                (rw (take_best-conn strategy allow_queue rr (acquire none best.url p) a)
                  (least_loaded best e full is_best refl refl))
        ]
        | inr (t, e) ↦ elim (str_eq-cases strategy fallback_queue) [
          | inl (u, q) ↦ elim (Bool-cases allow_queue) [
            | inl allowed ↦ rw t (waiting q allowed full (rw (u, allowed)) refl)
            | inr never ↦ rw t (refused e (λ _. never) some_info full (rw (u, never)) refl)
          ]
          | inr (u, q) ↦ rw t (refused e (λ h. absurd (q h)) some_info full (rw u) refl)
        ]
      ]

  IsChosen-perm :
      (strategy : String) (allow_queue : Bool) {s infos : List ServerInfo} (p : Pool) (r : Routed)
      → Permᴰ s infos
      → IsChosen float ieee strategy allow_queue s p r
      → IsChosen float ieee strategy allow_queue infos p r
  IsChosen-perm strategy allow_queue p r perm (nearest si m room near o q) =
      nearest si (Permᴰ-Memᴰ perm m) room (λ sj n. near sj (Permᴰ-Memᴰ (Permᴰ.symm perm) n)) o q
  IsChosen-perm strategy allow_queue p r perm (least_loaded si e full best o q) =
      least_loaded si e (All-perm IsFull perm full)
        (record {
          capacity = best.capacity;
          listed = Permᴰ-Memᴰ perm best.listed;
          least = λ sj n. best.least sj (Permᴰ-Memᴰ (Permᴰ.symm perm) n);
        })
        o q
  IsChosen-perm strategy allow_queue p r perm (unserved e o q) = unserved (Permᴰ-nil e perm) o q
  IsChosen-perm strategy allow_queue p r perm (waiting e a full o q) =
      waiting e a (All-perm IsFull perm full) o q
  IsChosen-perm strategy allow_queue p r perm (refused e a some_info full o q) =
      refused e a (λ h. some_info (Permᴰ-nil h (Permᴰ.symm perm))) (All-perm IsFull perm full) o q

  route_sorted-IsChosen :
      (strategy : String) (allow_queue : Bool) (model : String) (s infos : List ServerInfo)
      (rr : Dict ℕ) (p : Pool)
      → Permᴰ s infos
      → ByDistance s
      → infos ≢ []
      → All (IsRegistered p) infos
      → All (λ si. pos 1 ≤ℤ si.max_conn) infos
      → IsChosen float ieee strategy allow_queue infos p
          (route_sorted float sort strategy allow_queue none model s rr p)
  unfolding route_sorted
  route_sorted-IsChosen strategy allow_queue model s infos rr p perm sorted some_info known
        capacity =
      let r = try_groups none model (groups s) rr p in
      let back = λ (si : ServerInfo) (m : Memᴰ si infos). Permᴰ-Memᴰ (Permᴰ.symm perm) m in
      let known_of =
        λ (si : ServerInfo) (m : Memᴰ si infos). All-Memᴰ (IsRegistered p) infos m known in
      elim (Option-cases r.2) [
        | inr (c, e) ↦
            let l = try_groups-IsPlaced model (groups s) rr p c (groups-IsGroup s) e in
            rw (e, route_sorted)
              (nearest l.found.info (Permᴰ-Memᴰ perm (IsPlaced-listed l))
                (has_room-lt l.found.info l.found.room)
                (λ sj m near. IsPlaced-nearer l sorted sj (back sj m) (known_of sj m) near)
                (ap connected (ap (λ i. record { server_id = i }) l.found.target)) l.found.pool)
        | inl e ↦
            let (same, full) = try_groups-none model (groups s) rr p (groups-IsGroup s) e in
            rw (e, route_sorted, same)
              (IsChosen-perm strategy allow_queue p _ perm (
                fall_back-IsChosen strategy allow_queue s r.0 p (λ h. some_info (Permᴰ-nil h perm))
                  (All-perm (IsRegistered p) (Permᴰ.symm perm) known)
                  (All-perm (λ si. pos 1 ≤ℤ si.max_conn) (Permᴰ.symm perm) capacity)
                  (All-of_Memᴰ IsFull s (λ si m. IsFull-of_no_room si (
                    full si (subst (Memᴰ si) (sym (concat-groups s)) m)
                      (All-Memᴰ (IsRegistered p) infos (Permᴰ-Memᴰ perm m) known))))))
      ]

  route_infos-IsChosen :
      (strategy : String) (allow_queue : Bool) (model : String) (infos : List ServerInfo)
      (rr : Dict ℕ) (p : Pool)
      → All (IsRegistered p) infos
      → All (λ si. pos 1 ≤ℤ si.max_conn) infos
      → IsChosen float ieee strategy allow_queue infos p
          (route_infos float sort strategy allow_queue none model infos rr p)
  unfolding route_infos
  route_infos-IsChosen strategy allow_queue model [] rr p known capacity = unserved refl refl refl
  route_infos-IsChosen strategy allow_queue model (si ∷ infos) rr p known capacity =
      route_sorted-IsChosen strategy allow_queue model (sort.sort (si ∷ infos)) (si ∷ infos) rr p
        (sort.sort-perm (si ∷ infos)) (sort.sort-ByDistance (si ∷ infos)) (λ e. cc) known capacity

  -- With a live context, positive capacities and quotients that compare as IEEE 754 has it, `route`
  -- does one of the things that `IsChosen` describes: it connects to a candidate with room such that
  -- all nearer ones are full; under `best_effort`, if all are full, to one with the least load
  -- ratio; it reports that there is no candidate; or, if all are full, it waits in the queue or
  -- refuses. Nothing but the one slot that it hands out changes in the pool.
  pub route-IsChosen :
      (strategy : String) (allow_queue : Bool) (model : String) (d : Discovery) (rr : Dict ℕ)
      (p : Pool)
      → All (λ si. pos 1 ≤ℤ si.max_conn) (collect p (servers_for_model model d))
      → IsChosen float ieee strategy allow_queue
          (collect p (servers_for_model model d))
          p
          (route float sort strategy allow_queue none model d rr p)
  unfolding route
  route-IsChosen strategy allow_queue model d rr p capacity =
      route_infos-IsChosen strategy allow_queue model (collect p (servers_for_model model d)) rr p
        (collect-IsRegistered p (servers_for_model model d)) capacity
