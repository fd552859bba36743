-- ===== src/Backend/Pool.antt =====
-- backend/backend.go: `Pool` and its methods. The map of clients is a dictionary by URL; a counter
-- is an `int64`, which wraps.
use llm_bridge.Config.Types.{ServerConfig}
use llm_bridge.Base.{
  ℕ, String, ◌≡◌, refl, ◌⊎◌, inl, inr, Option, none, some, [], arith, eq_iff, str_eq, if◌then◌else◌,
  Option-cases, length, Dict, lookup, insert, erase, lookup-insert,
}
use llm_bridge.Base.Int.{ℤ, pos, negsuc, add64}

-- `ctx.Err()`: a live context gives `none`.
pub data ContextError : Type 0 where
  canceled deadline_exceeded : ContextError

abbrev pub Context : Type 0
Context = Option ContextError

pub record Client : Type 0 where
  pub server : ServerConfig
  pub inflight : ℤ

pub record Pool : Type 0 where
  pub clients : Dict Client

pub record Conn : Type 0 where
  pub server_id : String

pub data AcquireError : Type 0 where
  server_unhealthy : AcquireError
  context_error : ContextError → AcquireError

pub data Acquired : Type 0 where
  conn : Conn → Acquired
  failed : AcquireError → Acquired

abbrev pub new_pool : Pool
new_pool = record { clients = [] }

-- `bc.inflight.Add(n)` on the client that the map holds for the server.
unfoldable pub add_inflight : String → Client → ℤ → Pool → Pool
add_inflight server_id bc n p = record p {
  clients = insert server_id (record bc { inflight = add64 bc.inflight n }) p.clients;
}

-- `Acquire`: the counter goes up, and down again if the context is done.
acquire_from : Context → String → Option Client → Pool → Pool × Acquired
acquire_from ctx server_id none p = (p, failed server_unhealthy)
acquire_from none server_id (some bc) p =
    (add_inflight server_id bc (pos 1) p, conn (record { server_id = server_id }))
acquire_from (some e) server_id (some bc) p = (
  add_inflight server_id (record bc { inflight = add64 bc.inflight (pos 1) }) (negsuc 0) p,
  failed (context_error e),
)

unfoldable pub acquire : Context → String → Pool → Pool × Acquired
unfolding acquire_from
acquire ctx server_id p = acquire_from ctx server_id (lookup server_id p.clients) p

release_from : String → Option Client → Pool → Pool
release_from server_id none p = p
release_from server_id (some bc) p = add_inflight server_id bc (negsuc 0) p

unfoldable pub release : Conn → Pool → Pool
unfolding release_from
release c p = release_from c.server_id (lookup c.server_id p.clients) p

abbrev pub count_of : Option Client → ℤ
count_of none = pos 0
count_of (some bc) = bc.inflight

unfoldable pub inflight : String → Pool → ℤ
inflight server_id p = count_of (lookup server_id p.clients)

-- `AddServer` adds or replaces: the new client starts with nothing in flight.
unfoldable pub add_server : ServerConfig → Pool → Pool
add_server cfg p = record p {
  clients = insert cfg.url (record { server = cfg; inflight = pos 0 }) p.clients;
}

unfoldable pub remove_server : String → Pool → Pool
remove_server server_id p = record p { clients = erase server_id p.clients }

unfoldable pub server_count : Pool → ℕ
server_count p = length p.clients

abbrev pub server_of : Option Client → Option ServerConfig
server_of none = none
server_of (some bc) = some bc.server

unfoldable pub get_server : String → Pool → Option ServerConfig
get_server server_id p = server_of (lookup server_id p.clients)

-- The three ways in which `acquire` ends.
pub acquire-cases :
    (ctx : Context) (id : String) (p : Pool)
    → ((lookup id p.clients ≡ none) × (acquire ctx id p ≡ (p, failed server_unhealthy)))
      ⊎ ((bc : Client) × (lookup id p.clients ≡ some bc)
          × (ctx ≡ none)
          × (acquire ctx id p ≡ (add_inflight id bc (pos 1) p, conn (record { server_id = id }))))
      ⊎ ((bc : Client) × (e : ContextError) × (lookup id p.clients ≡ some bc)
          × (ctx ≡ some e)
          × (acquire ctx id p ≡ (
            add_inflight id (record bc { inflight = add64 bc.inflight (pos 1) }) (negsuc 0) p,
            failed (context_error e),
          )))
unfolding acquire
acquire-cases none id p = elim (Option-cases (lookup id p.clients)) [
  | inl e ↦ inl (e, rw (e, acquire))
  | inr (bc, e) ↦ inr (inl (bc, e, refl, rw (e, acquire)))
]
acquire-cases (some x) id p = elim (Option-cases (lookup id p.clients)) [
  | inl e ↦ inl (e, rw (e, acquire))
  | inr (bc, e) ↦ inr (inr (bc, x, e, refl, rw (e, acquire)))
]

pub release-cases :
    (c : Conn) (p : Pool)
    → ((lookup c.server_id p.clients ≡ none) × (release c p ≡ p))
      ⊎ ((bc : Client) × (lookup c.server_id p.clients ≡ some bc)
          × (release c p ≡ add_inflight c.server_id bc (negsuc 0) p))
unfolding release
release-cases c p = elim (Option-cases (lookup c.server_id p.clients)) [
  | inl e ↦ inl (e, rw (e, release))
  | inr (bc, e) ↦ inr (bc, e, rw (e, release))
]

pub lookup-add_inflight :
    (id j : String) (bc : Client) (n : ℤ) (p : Pool)
    → lookup j (add_inflight id bc n p).clients ≡ (
        if str_eq id j
        then some (record bc { inflight = add64 bc.inflight n })
        else lookup j p.clients)
unfolding add_inflight
lookup-add_inflight id j bc n p = lookup-insert id j _ p.clients

abbrev pub decremented : Option Client → Option Client
decremented none = none
decremented (some bc) = some (record bc { inflight = add64 bc.inflight (negsuc 0) })

pub lookup-release :
    (c : Conn) (j : String) (p : Pool)
    → lookup j (release c p).clients
      ≡ (if str_eq c.server_id j then decremented (lookup j p.clients) else lookup j p.clients)
lookup-release c j p = elim (release-cases c p) [
  | inl (missing, r) ↦ rw r (ground (arith, eq_iff c.server_id j))
  | inr (bc, found, r) ↦
      rw r (ground (arith, lookup-add_inflight c.server_id j bc (negsuc 0) p, eq_iff c.server_id j))
]

pub Acquired-cases :
    (a : Acquired) → ((c : Conn) × (a ≡ conn c)) ⊎ ((e : AcquireError) × (a ≡ failed e))
Acquired-cases (conn c) = inl (c, refl)
Acquired-cases (failed e) = inr (e, refl)
