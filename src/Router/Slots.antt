-- ===== src/Router/Slots.antt =====
-- The slots that the search of router/router.go takes and keeps.
use llm_bridge.Config.Types.{fallback_best_effort}
use llm_bridge.Backend.Pool.{Context, Pool, Conn, Acquired, conn, failed, acquire, Acquired-cases}
use llm_bridge.Backend.Counts.{System, Reach, start, step, acquires, take_conn, Reach-trans}
use llm_bridge.Discovery.State.{Discovery, servers_for_model}
use llm_bridge.Router.Select.{
  ServerInfo, collect, has_room, try_server, try_from, groups, try_groups, start_index,
}
use llm_bridge.Router.Best.{Float64, best_of}
use llm_bridge.Router.Route.{
  Sort, Outcome, connected, no_servers, all_busy, queued, wait_or_fail, take_best, fall_back,
  route_sorted, route_infos, route,
}
use llm_bridge.Base.{
  ℕ, zero, suc, ◌+◌, ◌%◌, String, ◌≡◌, sym, subst, inl, inr, Bool, Option, none, some, List, [],
  ◌∷◌, arith, str_eq, Bool-cases, Option-cases, length, get_elem?, Dict, insert,
}

abbrev pub sys : Pool → List Conn → System
sys p held = record { pool = p; held = held }

-- The connections held after a search.
abbrev pub keep : Option Conn → List Conn → List Conn
keep none held = held
keep (some c) held = c ∷ held

abbrev pub keep_outcome : Outcome → List Conn → List Conn
keep_outcome (connected c) held = c ∷ held
keep_outcome no_servers held = held
keep_outcome all_busy held = held
keep_outcome queued held = held

module _ (ctx : Context) where
  acquire-Reach :
      (id : String) (p : Pool) (held : List Conn)
      → Reach (sys p held) (sys (acquire ctx id p).0 (take_conn (acquire ctx id p).1 held))
  acquire-Reach id p held = step start (acquires ctx id)

  try_server-Reach :
      (si : ServerInfo) (p : Pool) (held : List Conn)
      → Reach (sys p held) (sys (try_server ctx si p).0 (keep (try_server ctx si p).1 held))
  unfolding try_server
  try_server-Reach si p held = elim (Bool-cases (has_room si)) [
    | inr full ↦ rw full start
    | inl room ↦
        let r = acquire-Reach si.url p held in
        elim (Acquired-cases (acquire ctx si.url p).1) [
          | inl (c, h) ↦ rw (room, h) (rw h at r)
          | inr (e, h) ↦ rw (room, h) (rw h at r)
        ]
  ]

  try_from-Reach :
      (group : List ServerInfo) (idx left k : ℕ) (p : Pool) (held : List Conn)
      → Reach
          (sys p held)
          (sys (try_from ctx group idx left k p).0 (keep (try_from ctx group idx left k p).1 held))
  unfolding try_from
  try_from-Reach group idx zero k p held = start
  try_from-Reach group idx (suc left) k p held =
      elim (Option-cases (get_elem? group ((idx + k) % length group))) [
        | inl e ↦ rw (e, try_from) start
        | inr (si, e) ↦
            let first = try_server-Reach si p held in
            elim (Option-cases (try_server ctx si p).1) [
              | inr (c, h) ↦ rw (e, try_from, h) first
              | inl h ↦
                  rw (e, try_from, h)
                    (Reach-trans (rw h at first)
                      (try_from-Reach group idx left (k + 1) (try_server ctx si p).0 held))
            ]
      ]

  try_groups-Reach :
      (model : String) (gs : List (List ServerInfo)) (rr : Dict ℕ) (p : Pool) (held : List Conn)
      → Reach
          (sys p held)
          (sys (try_groups ctx model gs rr p).1 (keep (try_groups ctx model gs rr p).2 held))
  unfolding try_groups
  try_groups-Reach model [] rr p held = start
  try_groups-Reach model (group ∷ gs) rr p held =
      let idx = start_index model group rr in
      let r = try_from ctx group idx (length group) 0 p in
      let first = try_from-Reach group idx (length group) 0 p held in
      elim (Option-cases r.1) [
        | inr (c, h) ↦ rw (h, try_groups) (rw h at first)
        | inl h ↦
            rw (h, try_groups)
              (Reach-trans (rw h at first)
                (try_groups-Reach model gs (insert model (idx + 1) rr) r.0 held))
      ]

module _ (float : Float64) (sort : Sort) (ctx : Context) where
  wait_or_fail-keep :
      (strategy : String) (allow_queue : Bool) (held : List Conn)
      → keep_outcome (wait_or_fail strategy allow_queue) held ≡ held
  wait_or_fail-keep strategy allow_queue held = ground arith

  unserved-Reach :
      (strategy : String) (allow_queue : Bool) (s : System) (p : Pool) (held : List Conn)
      → Reach s (sys p held)
      → Reach s (sys p (keep_outcome (wait_or_fail strategy allow_queue) held))
  unserved-Reach strategy allow_queue s p held r =
      subst (λ h. Reach s (sys p h)) (sym (wait_or_fail-keep strategy allow_queue held)) r

  take_best-Reach :
      (strategy : String) (allow_queue : Bool) (rr : Dict ℕ) (s : System) (a : Pool × Acquired)
      (held : List Conn)
      → Reach s (sys a.0 (take_conn a.1 held))
      → let r = take_best float sort strategy allow_queue rr a in
        Reach s (sys r.pool (keep_outcome r.outcome held))
  take_best-Reach strategy allow_queue rr s (p, conn c) held r = r
  take_best-Reach strategy allow_queue rr s (p, failed e) held r =
      unserved-Reach strategy allow_queue s p held r

  fall_back-Reach :
      (strategy : String) (allow_queue : Bool) (infos : List ServerInfo) (rr : Dict ℕ) (p : Pool)
      (held : List Conn)
      → let r = fall_back float sort strategy allow_queue ctx infos rr p in
        Reach (sys p held) (sys r.pool (keep_outcome r.outcome held))
  unfolding fall_back
  fall_back-Reach strategy allow_queue infos rr p held =
      let idle = unserved-Reach strategy allow_queue (sys p held) p held start in
      elim (Bool-cases (str_eq strategy fallback_best_effort)) [
        | inr t ↦ rw t idle
        | inl t ↦ elim (Option-cases (best_of float infos)) [
          | inl b ↦ rw (t, fall_back, b) idle
          | inr (best, b) ↦
              rw (t, fall_back, b)
                (take_best-Reach strategy allow_queue rr (sys p held) (acquire ctx best.url p) held
                  (acquire-Reach ctx best.url p held))
        ]
      ]

  route_sorted-Reach :
      (strategy : String) (allow_queue : Bool) (model : String) (infos : List ServerInfo)
      (rr : Dict ℕ) (p : Pool) (held : List Conn)
      → let r = route_sorted float sort strategy allow_queue ctx model infos rr p in
        Reach (sys p held) (sys r.pool (keep_outcome r.outcome held))
  unfolding route_sorted
  route_sorted-Reach strategy allow_queue model infos rr p held =
      let r = try_groups ctx model (groups infos) rr p in
      let first = try_groups-Reach ctx model (groups infos) rr p held in
      elim (Option-cases r.2) [
        | inr (c, h) ↦ rw (h, route_sorted) (rw h at first)
        | inl h ↦
            rw (h, route_sorted)
              (Reach-trans (rw h at first)
                (fall_back-Reach strategy allow_queue infos r.0 r.1 held))
      ]

  route_infos-Reach :
      (strategy : String) (allow_queue : Bool) (model : String) (infos : List ServerInfo)
      (rr : Dict ℕ) (p : Pool) (held : List Conn)
      → let r = route_infos float sort strategy allow_queue ctx model infos rr p in
        Reach (sys p held) (sys r.pool (keep_outcome r.outcome held))
  unfolding route_infos
  route_infos-Reach strategy allow_queue model [] rr p held = start
  route_infos-Reach strategy allow_queue model (si ∷ infos) rr p held =
      route_sorted-Reach strategy allow_queue model (sort.sort (si ∷ infos)) rr p held

  -- Whatever the context and the strategy, `route` takes the pool through a history of its operations
  -- at whose end the connections held are those held before and the one that it returns, if it does.
  pub route-Reach :
      (strategy : String) (allow_queue : Bool) (model : String) (d : Discovery) (rr : Dict ℕ)
      (p : Pool) (held : List Conn)
      → let r = route float sort strategy allow_queue ctx model d rr p in
        Reach (sys p held) (sys r.pool (keep_outcome r.outcome held))
  unfolding route
  route-Reach strategy allow_queue model d rr p held =
      route_infos-Reach strategy allow_queue model (collect p (servers_for_model model d)) rr p held
