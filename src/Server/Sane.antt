-- ===== src/Server/Sane.antt =====
-- What holds of the clients of the pool of backend/backend.go that server/server.go fills.
use llm_bridge.Config.Types.{ServerConfig}
use llm_bridge.Config.Accepted.{IsUsable}
use llm_bridge.Backend.Pool.{
  Client, Conn, Context, Pool, acquire, acquire-cases, add_inflight, lookup-add_inflight, release,
  release-cases, remove_server, get_server, server_of,
}
use llm_bridge.Router.Select.{ServerInfo, add_info, collect}
use llm_bridge.Server.Synced.{renewed, or_last, last_named}
use llm_bridge.Base.{
  String, ◌≡◌, subst, inl, inr, Bool, Option, none, some, List, [], ◌∷◌, str_eq, str_eq-cases,
  Bool-cases, All, lookup, lookup-erase,
}
use llm_bridge.Base.Int.{ℤ, pos, ◌≤ℤ◌}

module _ (parses : String → Bool) where
  -- The client is that of a server which the checks of `Set` accept, under its own URL.
  abbrev pub IsSaneClient : String → Option Client → Type 0
  IsSaneClient j none = Unit
  IsSaneClient j (some bc) = IsUsable parses bc.server × (bc.server.url ≡ j)

  abbrev pub IsSane : Pool → Type 0
  IsSane p = (j : String) → IsSaneClient j (lookup j p.clients)

  abbrev pub IsSaneConfig : String → Option ServerConfig → Type 0
  IsSaneConfig j none = Unit
  IsSaneConfig j (some sc) = IsUsable parses sc × (sc.url ≡ j)

  or_last-IsSaneConfig :
      (j : String) (a b : Option ServerConfig)
      → IsSaneConfig j a
      → IsSaneConfig j b
      → IsSaneConfig j (or_last a b)
  or_last-IsSaneConfig j none b h k = k
  or_last-IsSaneConfig j (some sc) b h k = h

  pub last_named-IsSaneConfig :
      (j : String) (scs : List ServerConfig)
      → All (IsUsable parses) scs
      → IsSaneConfig j (last_named j scs)
  last_named-IsSaneConfig j [] u = tt
  last_named-IsSaneConfig j (sc ∷ scs) (u, us) =
      or_last-IsSaneConfig j (last_named j scs) _ (last_named-IsSaneConfig j scs us)
        (elim (str_eq-cases sc.url j) [ inl (t, e) ↦ rw t (u, e) | inr (t, e) ↦ rw t tt ])

  pub renewed-IsSaneClient :
      (j : String) (o : Option ServerConfig) (client : Option Client)
      → IsSaneConfig j o
      → IsSaneClient j client
      → IsSaneClient j (renewed o client)
  renewed-IsSaneClient j none client h k = k
  renewed-IsSaneClient j (some sc) client h k = h

  add_inflight-IsSane :
      (id : String) (bc : Client) (n : ℤ) (p : Pool)
      → IsSaneClient id (some bc)
      → IsSane p
      → IsSane (add_inflight id bc n p)
  add_inflight-IsSane id bc n p c h j = elim (str_eq-cases id j) [
    | inl (t, e) ↦
        rw (lookup-add_inflight id j bc n p, t) (subst (λ k. IsSaneClient k (some bc)) e c)
    | inr (t, e) ↦ rw (lookup-add_inflight id j bc n p, t) (h j)
  ]

  pub acquire-IsSane :
      (ctx : Context) (id : String) (p : Pool) → IsSane p → IsSane (acquire ctx id p).0
  acquire-IsSane ctx id p h = elim (acquire-cases ctx id p) [
    | inl (e, r) ↦ rw r h
    | inr (inl (bc, e, _, r)) ↦
        rw r (add_inflight-IsSane id bc _ p (subst (IsSaneClient id) e (h id)) h)
    | inr (inr (bc, x, e, _, r)) ↦ rw r (
        add_inflight-IsSane id (record bc { inflight = _ }) _ p (subst (IsSaneClient id) e (h id))
          h)
  ]

  pub release-IsSane : (c : Conn) (p : Pool) → IsSane p → IsSane (release c p)
  release-IsSane c p h = elim (release-cases c p) [
    | inl (e, r) ↦ rw r h
    | inr (bc, e, r) ↦ rw r (
        add_inflight-IsSane c.server_id bc _ p (subst (IsSaneClient c.server_id) e (h c.server_id))
          h)
  ]

  pub remove_server-IsSane : (id : String) (p : Pool) → IsSane p → IsSane (remove_server id p)
  unfolding remove_server
  remove_server-IsSane id p h j = elim (Bool-cases (str_eq id j)) [
    | inl t ↦ rw (lookup-erase id j p.clients, t) tt
    | inr t ↦ rw (lookup-erase id j p.clients, t) (h j)
  ]

  collect-server :
      (p : Pool) (url : String) (o : Option Client) (infos : List ServerInfo)
      → IsSaneClient url o
      → All (λ sj. pos 1 ≤ℤ sj.max_conn) infos
      → All (λ sj. pos 1 ≤ℤ sj.max_conn) (add_info url p (server_of o) infos)
  collect-server p url none infos h k = k
  collect-server p url (some bc) infos h k = (h.0.capacity, k)

  -- The candidates of a sane pool have positive capacities.
  pub collect-capacity :
      (p : Pool) (urls : List String) → IsSane p → All (λ sj. pos 1 ≤ℤ sj.max_conn) (collect p urls)
  unfolding collect get_server
  collect-capacity p [] h = tt
  collect-capacity p (url ∷ urls) h =
      collect-server p url (lookup url p.clients) (collect p urls) (h url)
        (collect-capacity p urls h)
