-- ===== src/Backend/Counts.antt =====
-- The counters of backend/backend.go against the connections that callers hold.
use llm_bridge.Config.Types.{ServerConfig}
use llm_bridge.Base.Int.{wrap64_add_one, wrap64_sub_one}
use llm_bridge.Backend.Pool.{
  Context, Client, Pool, Conn, Acquired, conn, failed, acquire, acquire-cases, release,
  release-cases, lookup-add_inflight, inflight, count_of, add_server, remove_server,
}
use llm_bridge.Base.{
  ℕ, suc, ◌^◌, ◌<◌, String, ◌≡◌, refl, ◌∙◌, ◌≢◌, inl, inr, none, some, List, [], ◌∷◌, arith, eq_iff,
  str_eq, if◌then◌else◌, Option-cases, lookup, lookup-insert, lookup-erase,
}
use llm_bridge.Base.Int.{pos, negsuc, add64, wrap64, wrap64_of_FitsInt64}

-- How many of the connections go to the server.
abbrev pub count : String → List Conn → ℕ
count id [] = 0
count id (c ∷ cs) = if str_eq c.server_id id then suc (count id cs) else count id cs

-- The pool, with the connections that are acquired and not yet released.
pub record System : Type 0 where
  pub pool : Pool
  pub held : List Conn

abbrev pub take_conn : Acquired → List Conn → List Conn
take_conn (conn c) held = c ∷ held
take_conn (failed e) held = held

-- `Removes c cs ds`: the list `ds` is `cs` without one entry `c`.
pub data Removes (c : Conn) : List Conn → List Conn → Type 0 where
  first : {cs : List Conn} → Removes c (c ∷ cs) cs
  later : {d : Conn} {cs ds : List Conn} → Removes c cs ds → Removes c (d ∷ cs) (d ∷ ds)

-- What callers may do in any order: acquire; release what they hold, once; remove a server; add one
-- that is new to the pool and to which nobody holds a connection.
pub data Step (s : System) : System → Type 0 where
  acquires :
      (ctx : Context) (id : String)
      → Step s (record {
        pool = (acquire ctx id s.pool).0;
        held = take_conn (acquire ctx id s.pool).1 s.held;
      })
  releases :
      (c : Conn) (rest : List Conn)
      → Removes c s.held rest
      → Step s (record { pool = release c s.pool; held = rest })
  removes : (id : String) → Step s (record s { pool = remove_server id s.pool })
  adds :
      (cfg : ServerConfig)
      → lookup cfg.url s.pool.clients ≡ none
      → count cfg.url s.held ≡ 0
      → Step s (record s { pool = add_server cfg s.pool })

pub data Reach (s : System) : System → Type 0 where
  start : Reach s s
  step : {t u : System} → Reach s t → Step t u → Reach s u

-- Each counter is the number of connections held, as an `int64`.
abbrev pub IsAccounted : System → Type 0
IsAccounted s =
    (id : String) (bc : Client)
    → lookup id s.pool.clients ≡ some bc
    → bc.inflight ≡ wrap64 (pos (count id s.held))

count-Removes :
    (id : String) {c : Conn} {cs ds : List Conn}
    → Removes c cs ds
    → count id cs ≡ (if str_eq c.server_id id then suc (count id ds) else count id ds)
count-Removes id first = refl
count-Removes id (later m) = ground (arith, count-Removes id m)

acquire-IsAccounted :
    (ctx : Context) (id : String) (s : System)
    → IsAccounted s
    → IsAccounted (record {
      pool = (acquire ctx id s.pool).0;
      held = take_conn (acquire ctx id s.pool).1 s.held;
    })
acquire-IsAccounted ctx id s a j bc e = elim (acquire-cases ctx id s.pool) [
  | inl (_, r) ↦ rw r (a j bc (rw r at e))
  | inr (inl (b, found, _, r)) ↦ rw r (
      ground (
        arith,
        lookup-add_inflight id j b (pos 1) s.pool,
        a j bc,
        a id b found,
        rw r at e,
        eq_iff id j,
        wrap64_add_one (count id s.held),
      ))
  | inr (inr (b, x, found, _, r)) ↦ rw r (
      ground (
        arith,
        lookup-add_inflight id j (record b { inflight = add64 b.inflight (pos 1) }) (negsuc 0)
            s.pool,
        a j bc,
        a id b found,
        rw r at e,
        eq_iff id j,
        wrap64_add_one (count id s.held),
        wrap64_sub_one (count id s.held),
      ))
]

release-IsAccounted :
    (c : Conn) (rest : List Conn) (s : System)
    → Removes c s.held rest
    → IsAccounted s
    → IsAccounted (record { pool = release c s.pool; held = rest })
release-IsAccounted c rest s m a j bc e = elim (release-cases c s.pool) [
  | inl (missing, r) ↦
      ground
        (arith, count-Removes j m, a j bc (rw r at e), rw r at e, missing, eq_iff c.server_id j)
  | inr (b, found, r) ↦ ground (
    arith,
    count-Removes j m,
    lookup-add_inflight c.server_id j b (negsuc 0) s.pool,
    a j bc,
    a c.server_id b found,
    rw r at e,
    eq_iff c.server_id j,
    wrap64_sub_one (count c.server_id rest),
  )
]

-- Every step keeps the counters true.
pub Step-IsAccounted : {s t : System} → Step s t → IsAccounted s → IsAccounted t
unfolding remove_server add_server
Step-IsAccounted {s} (acquires ctx id) a = acquire-IsAccounted ctx id s a
Step-IsAccounted {s} (releases c rest m) a = release-IsAccounted c rest s m a
Step-IsAccounted {s} (removes id) a =
    λ j bc e. ground (arith, lookup-erase id j s.pool.clients, a j bc)
Step-IsAccounted {s} (adds cfg new unheld) a = λ j bc e. ground (
  arith,
  lookup-insert cfg.url j (record { server = cfg; inflight = pos 0 }) s.pool.clients,
  a j bc,
  eq_iff cfg.url j,
  wrap64_of_FitsInt64 (pos 0) (omega arith),
)

Reach-IsAccounted : {s t : System} → Reach s t → IsAccounted s → IsAccounted t
Reach-IsAccounted start a = a
Reach-IsAccounted (step r m) a = Step-IsAccounted m (Reach-IsAccounted r a)

-- From a state in which the counters are right, in any history of acquires, releases, removals and
-- additions of servers that are new and that nobody holds a connection to, the counter of each
-- server in the pool is the number of connections to it that are held, as long as these are fewer
-- than 2 ^ 63.
pub Reach-inflight :
    {s t : System} (id : String)
    → IsAccounted s
    → Reach s t
    → lookup id t.pool.clients ≢ none
    → count id t.held < 2 ^ 63
    → inflight id t.pool ≡ pos (count id t.held)
unfolding inflight
Reach-inflight {t} id a r present bound = elim (Option-cases (lookup id t.pool.clients)) [
  | inl e ↦ absurd (present e)
  | inr (bc, e) ↦
      rw (e, count_of) (Reach-IsAccounted r a id bc e ∙ wrap64_of_FitsInt64 _ (omega arith))
]

pub Reach-trans : {s t u : System} → Reach s t → Reach t u → Reach s u
Reach-trans r start = r
Reach-trans r (step r' m) = step (Reach-trans r r') m
