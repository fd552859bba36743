-- ===== src/Backend/Replaced.antt =====
-- What `AddServer` does to a server that is in use, and what a failed or a released `Acquire` leaves
-- (backend/backend.go).
use native.Mathlib.Nat.{zero-add}
use llm_bridge.Config.Types.{ServerConfig}
use llm_bridge.Base.Int.{add64_cancel}
use llm_bridge.Backend.Pool.{
  Context, Client, Pool, Conn, Acquired, conn, failed, acquire, acquire-cases, release,
  lookup-release, lookup-add_inflight, inflight, add_server,
}
use llm_bridge.Backend.Counts.{count}
use llm_bridge.Base.{
  ℕ, zero, suc, ◌+◌, ◌^◌, ◌≤◌, String, ◌≡◌, refl, sym, ap, ◌∙◌, inl, inr, some, List, [], ◌∷◌,
  arith, eq_iff, str_eq-cases, lookup, lookup-insert_self,
}
use llm_bridge.Base.Int.{ℤ, pos, negsuc, add64, wrap64, FitsInt64, wrap64_of_FitsInt64}

abbrev pub negative : ℕ → ℤ
negative zero = pos 0
negative (suc n) = negsuc n

-- The callers of all these connections release them.
pub release_all : List Conn → Pool → Pool
release_all [] p = p
release_all (c ∷ cs) p = release_all cs (release c p)

wrap64-negative_sub_one :
    (n : ℕ) → add64 (wrap64 (negative n)) (negsuc 0) ≡ wrap64 (negative (suc n))
unfolding add64
wrap64-negative_sub_one zero = ground arith
wrap64-negative_sub_one (suc n) = ground arith

negative_in_range : (n : ℕ) → n ≤ 2 ^ 63 → wrap64 (negative (0 + n)) ≡ negative n
negative_in_range zero h = wrap64_of_FitsInt64 (pos 0) (omega arith)
negative_in_range (suc n) h = rw zero-add (wrap64_of_FitsInt64 (negsuc n) (omega arith))

release_all-negative :
    (id : String) (cs : List Conn) (p : Pool) (n : ℕ) (bc : Client)
    → lookup id p.clients ≡ some bc
    → bc.inflight ≡ wrap64 (negative n)
    → inflight id (release_all cs p) ≡ wrap64 (negative (n + count id cs))
unfolding release_all inflight
release_all-negative id [] p n bc e h = ground arith
release_all-negative id (c ∷ cs) p n bc e h = elim (str_eq-cases c.server_id id) [
  | inl (t, same) ↦ rw t (
      release_all-negative id cs (release c p) (suc n)
        (record bc { inflight = add64 bc.inflight (negsuc 0) })
        (lookup-release c id p ∙ rw (t, e) refl)
        (ap (λ z. add64 z (negsuc 0)) h ∙ wrap64-negative_sub_one n)
      ∙ ap (λ k. wrap64 (negative k)) (omega arith))
  | inr (t, other) ↦
      rw t (release_all-negative id cs (release c p) n bc (lookup-release c id p ∙ rw t e) h)
]

-- Adding a server starts its counter at 0, also if it was there and in use, and the requests that
-- are in flight to it still count down when they end: after at most 2 ^ 63 of them have ended the
-- counter is minus their number.
pub release_all-add_server :
    (cfg : ServerConfig) (cs : List Conn) (p : Pool)
    → count cfg.url cs ≤ 2 ^ 63
    → inflight cfg.url (release_all cs (add_server cfg p)) ≡ negative (count cfg.url cs)
unfolding add_server
release_all-add_server cfg cs p h =
    release_all-negative cfg.url cs _ 0 (record { server = cfg; inflight = pos 0 })
      (lookup-insert_self cfg.url _ p.clients) (sym (wrap64_of_FitsInt64 (pos 0) (omega arith)))
    ∙ negative_in_range (count cfg.url cs) h

-- What a caller does when it is done with what `Acquire` gave it.
pub give_back : Acquired → Pool → Pool
give_back (conn c) p = release c p
give_back (failed e) p = p

-- Acquiring, and releasing the connection if there is one, leaves every client of the pool as it
-- was, as long as the counter of the server is in the range of an `int64`: also when `Acquire` fails
-- because the context is done or the server is not there.
pub give_back-acquire :
    (ctx : Context) (id j : String) (p : Pool)
    → ((bc : Client) → lookup id p.clients ≡ some bc → FitsInt64 bc.inflight)
    → lookup j (give_back (acquire ctx id p).1 (acquire ctx id p).0).clients ≡ lookup j p.clients
unfolding give_back
give_back-acquire ctx id j p fits = elim (acquire-cases ctx id p) [
  | inl (missing, r) ↦ rw r refl
  | inr (inl (bc, found, _, r)) ↦ rw r (
      lookup-release (record { server_id = id }) j _
      ∙ ground (
        arith,
        found,
        lookup-add_inflight id j bc (pos 1) p,
        eq_iff id j,
        add64_cancel bc.inflight (fits bc found),
      ))
  | inr (inr (bc, x, found, _, r)) ↦ rw r (
      ground (
        arith,
        found,
        lookup-add_inflight id j (record bc { inflight = add64 bc.inflight (pos 1) }) (negsuc 0) p,
        eq_iff id j,
        add64_cancel bc.inflight (fits bc found),
      ))
]
