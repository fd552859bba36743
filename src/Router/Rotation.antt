-- ===== src/Router/Rotation.antt =====
-- The round-robin of router/router.go over the nearest group.
use native.Mathlib.Nat.{mod-lt}
use llm_bridge.Backend.Pool.{Pool, acquire}
use llm_bridge.Router.Select.{ServerInfo, has_room, try_groups, start_index, or_zero}
use llm_bridge.Router.Try.{IsRegistered, try_group-first}
use llm_bridge.Router.Groups.{try_groups-hit}
use llm_bridge.Base.{
  ℕ, ◌+◌, ◌%◌, ◌<◌, String, ◌≡◌, ap, ◌∙◌, true, none, some, List, ◌∷◌, length, get_elem?, Dict,
  insert, lookup-insert_self,
}

-- Where the server at the start index of the nearest group is in the pool and has room, a request
-- with a live context goes to it, and the next request for the model starts one place further, round
-- the end of the group.
pub try_groups-rotates :
    (model : String) (group : List ServerInfo) (gs : List (List ServerInfo)) (rr : Dict ℕ)
    (p : Pool) (si : ServerInfo)
    → 0 < length group
    → get_elem? group (start_index model group rr) ≡ some si
    → has_room si ≡ true
    → IsRegistered p si
    → (try_groups none model (group ∷ gs) rr p ≡ (
      insert model (start_index model group rr + 1) rr,
      (acquire none si.url p).0,
      some (record { server_id = si.url }),
    ))
      × (start_index model group (try_groups none model (group ∷ gs) rr p).0
          ≡ (start_index model group rr + 1) % length group)
try_groups-rotates model group gs rr p si full e room known =
    let idx = start_index model group rr in
    let first = try_group-first group idx p si (mod-lt _ full) e room known in
    let hit = try_groups-hit model group gs rr p (ap (λ r. r.1) first) in
    (
      hit
          ∙ ap (λ q. (insert model (idx + 1) rr, q, some (record { server_id = si.url })))
              (ap (λ r. r.0) first),
      ap (λ r. start_index model group r.0) hit
          ∙ ap (λ o. or_zero o % length group) (lookup-insert_self model (idx + 1) rr),
    )
