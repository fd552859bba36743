-- ===== src/Router/Overrun.antt =====
-- router/router.go: the load that `route` compares with the maximum is the one that it has collected
-- before, and `Acquire` does not look at the maximum.
use llm_bridge.Backend.Pool.{Pool, acquire, acquire-cases, inflight, count_of, lookup-add_inflight}
use llm_bridge.Router.Select.{ServerInfo, has_room, try_groups, start_index}
use llm_bridge.Router.Try.{IsRegistered}
use llm_bridge.Router.Rotation.{try_groups-rotates}
use llm_bridge.Base.{
  ℕ, String, ◌≡◌, refl, ap, ◌∙◌, ◌≢◌, inl, inr, true, none, some, List, [], ◌∷◌, arith, str_eq_self,
  get_elem?, Dict, lookup,
}
use llm_bridge.Base.Int.{pos, add64}

abbrev alone : ServerInfo → List (List ServerInfo)
alone si = (si ∷ []) ∷ []

start_index-alone :
    (model : String) (si : ServerInfo) (rr : Dict ℕ)
    → get_elem? (si ∷ []) (start_index model (si ∷ []) rr) ≡ some si
start_index-alone model si rr =
    let zero_start : start_index model (si ∷ []) rr ≡ 0 = omega arith in
    ap (get_elem? (si ∷ [])) zero_start

inflight-acquire :
    (id : String) (p : Pool)
    → lookup id p.clients ≢ none
    → inflight id (acquire none id p).0 ≡ add64 (inflight id p) (pos 1)
unfolding inflight
inflight-acquire id p known = elim (acquire-cases none id p) [
  | inl (missing, r) ↦ absurd (known missing)
  | inr (inr (bc, x, found, e, r)) ↦ absurd (cc)
  | inr (inl (bc, found, e, r)) ↦
      rw (r, found)
        (ap count_of (lookup-add_inflight id id bc (pos 1) p) ∙ rw (str_eq_self id) refl)
]

IsRegistered-acquire :
    (si : ServerInfo) (p : Pool) → IsRegistered p si → IsRegistered (acquire none si.url p).0 si
IsRegistered-acquire si p known missing = elim (acquire-cases none si.url p) [
  | inl (gone, r) ↦ known gone
  | inr (inr (bc, x, found, e, r)) ↦ cc
  | inr (inl (bc, found, e, r)) ↦
      let now = rw (str_eq_self si.url) at (lookup-add_inflight si.url si.url bc (pos 1) p) in
      let gone = rw r at missing in cc
]

-- Two requests that have collected the same load, with room for one, both get the server: the second
-- is not refused when the first has taken the slot, and the counter goes up by two.
pub try_groups-overruns :
    (model other : String) (si : ServerInfo) (rr rr' : Dict ℕ) (p : Pool)
    → has_room si ≡ true
    → IsRegistered p si
    → let first = try_groups none model (alone si) rr p in
      let second = try_groups none other (alone si) rr' first.1 in
      (first.2 ≡ some (record { server_id = si.url }))
      × (second.2 ≡ some (record { server_id = si.url }))
      × (inflight si.url second.1 ≡ add64 (add64 (inflight si.url p) (pos 1)) (pos 1))
try_groups-overruns model other si rr rr' p room known =
    let q = (acquire none si.url p).0 in
    let known' = IsRegistered-acquire si p known in
    let (a, _) =
      try_groups-rotates model (si ∷ []) [] rr p si (omega arith) (start_index-alone model si rr)
        room known in
    let (b, _) =
      try_groups-rotates other (si ∷ []) [] rr' q si (omega arith) (start_index-alone other si rr')
        room known' in
    rw (a, b)
      (
        refl,
        refl,
        inflight-acquire si.url q known'
            ∙ ap (λ n. add64 n (pos 1)) (inflight-acquire si.url p known),
      )
