-- ===== src/Router/Select.antt =====
-- router/router.go: the candidates for a model, their groups by distance, and the two searches for a
-- server, by round-robin in the groups and by the load ratio.
use llm_bridge.Config.Types.{ServerConfig}
use llm_bridge.Backend.Pool.{Context, Pool, Conn, conn, failed, acquire, inflight, get_server}
use llm_bridge.Base.{
  get_elem?, ℕ, zero, suc, ◌+◌, ◌%◌, String, Bool, ◌&&◌, Option, none, some, List, [], ◌∷◌, ◌++◌,
  if◌then◌else◌, length, Dict, lookup, insert,
}
use llm_bridge.Base.Int.{ℤ, ltb_ℤ, leb_ℤ}

pub record ServerInfo : Type 0 where
  pub url : String
  pub distance : ℤ
  pub max_conn : ℤ
  pub inflight : ℤ

abbrev pub info_of : String → ServerConfig → ℤ → ServerInfo
info_of url sc n = record {
  url = url;
  distance = sc.distance;
  max_conn = sc.max_concurrent_requests;
  inflight = n;
}

abbrev pub add_info : String → Pool → Option ServerConfig → List ServerInfo → List ServerInfo
add_info url p none infos = infos
add_info url p (some sc) infos = info_of url sc (inflight url p) ∷ infos

-- The loop that gathers what the pool knows of each server.
unfoldable pub collect : Pool → List String → List ServerInfo
collect p [] = []
collect p (url ∷ urls) = add_info url p (get_server url p) (collect p urls)

abbrev pub same_distance : ServerInfo → ServerInfo → Bool
same_distance a b = leb_ℤ a.distance b.distance && leb_ℤ b.distance a.distance

-- The loops that cut the sorted candidates into groups: `first` opened the group `cur`.
unfoldable pub groups_from : ServerInfo → List ServerInfo → List ServerInfo → List (List ServerInfo)
groups_from first cur [] = cur ∷ []
groups_from first cur (si ∷ infos) =
    let longer = groups_from first (cur ++ si ∷ []) infos in
    let closed = cur ∷ groups_from si (si ∷ []) infos in
    if same_distance si first then longer else closed

unfoldable pub groups : List ServerInfo → List (List ServerInfo)
unfolding groups_from
groups [] = []
groups (si ∷ infos) = groups_from si (si ∷ []) infos

abbrev pub has_room : ServerInfo → Bool
has_room si = ltb_ℤ si.inflight si.max_conn

-- `Acquire` on a candidate that has room; a candidate that is full is passed over.
unfoldable pub try_server : Context → ServerInfo → Pool → Pool × Option Conn
try_server ctx si p =
    if has_room si
    then (elim (acquire ctx si.url p).1 [
      | conn c ↦ ((acquire ctx si.url p).0, some c)
      | failed e ↦ ((acquire ctx si.url p).0, none)
    ])
    else (p, none)

-- The loop over `k`, with the rounds that are left.
unfoldable pub try_from : Context → List ServerInfo → ℕ → ℕ → ℕ → Pool → Pool × Option Conn
try_from ctx group idx zero k p = (p, none)
try_from ctx group idx (suc left) k p = elim (get_elem? group ((idx + k) % length group)) [
  | none ↦ (p, none)
  | some si ↦
      let r = try_server ctx si p in
      elim r.1 [ some c ↦ r | none ↦ try_from ctx group idx left (k + 1) r.0 ]
]

abbrev pub or_zero : Option ℕ → ℕ
or_zero none = 0
or_zero (some n) = n

-- Where the round-robin of a model starts in a group.
abbrev pub start_index : String → List ServerInfo → Dict ℕ → ℕ
start_index model group rr = or_zero (lookup model rr) % length group

unfoldable pub try_groups :
    Context → String → List (List ServerInfo) → Dict ℕ → Pool → Dict ℕ × Pool × Option Conn
try_groups ctx model [] rr p = (rr, p, none)
try_groups ctx model (group ∷ gs) rr p =
    let idx = start_index model group rr in
    let rr' = insert model (idx + 1) rr in
    let r = try_from ctx group idx (length group) 0 p in
    elim r.1 [ some c ↦ (rr', r.0, some c) | none ↦ try_groups ctx model gs rr' r.0 ]
