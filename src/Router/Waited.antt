-- ===== src/Router/Waited.antt =====
-- What a call of `enqueue` in router/queue.go holds of the pool, at every moment.
use llm_bridge.Backend.Pool.{Pool, Conn}
use llm_bridge.Backend.Counts.{first, System, releases, Reach, start, step, Reach-trans}
use llm_bridge.Router.Best.{Float64}
use llm_bridge.Router.Route.{Sort, connected}
use llm_bridge.Router.Slots.{sys, keep_outcome, route-Reach}
use llm_bridge.Router.Queue.{
  QueueItem, QueueResult, answer, queue_timeout, canceled_result, Seen, retry,
}
use llm_bridge.Router.Waiter.{
  waiting, removing, returned, Waiter, enqueued, conn_in, conns_in, send, receive, cancel_with,
  cancel, finish, sends, receives, cancels, finishes, WaiterRun, begin, next,
}
use llm_bridge.Router.Wait.{
  Scene, conns_of_channel, conns_of_phase, own, give_up, SceneStep, elsewhere, serves, fails, takes,
  gives_up, leaves, SceneRun, at_start, goes_on,
}
use llm_bridge.Base.{
  ℕ, ◌≡◌, refl, sym, ap, subst, ◌∙◌, ◌⊎◌, inl, inr, true, false, Option, none, some, List, [], ◌∷◌,
  ◌++◌, append-nil, Option-cases, Dict,
}

conns_of_phase-returned :
    (res : QueueResult) → conns_of_phase (returned (conn_in res)) ≡ conns_in res
conns_of_phase-returned (answer c) = refl
conns_of_phase-returned queue_timeout = refl
conns_of_phase-returned canceled_result = refl

append-empty : (xs ys : List Conn) → xs ++ ys ≡ [] → (xs ≡ []) × (ys ≡ [])
append-empty [] ys e = (refl, e)
append-empty (x ∷ xs) ys e = cc

-- A call whose item is in the queue has no connection.
abbrev pub IsClear : Waiter → Type 0
IsClear w = (w.queued ≡ false) ⊎ (own w ≡ [])

abbrev all_held : Scene → List Conn
all_held s = own s.waiter ++ s.held

own-receive :
    (res : QueueResult) (w : Waiter)
    → w.phase ≡ waiting
    → w.channel ≡ some res
    → own (receive res w) ≡ own w
own-receive res w p e =
    conns_of_phase-returned res
    ∙ sym (append-nil (conns_in res))
    ∙ sym (
        ap (λ ch. conns_of_channel ch ++ conns_of_phase w.phase) e
        ∙ ap (λ ph. conns_in res ++ conns_of_phase ph) p)

own-finish : (w : Waiter) → w.phase ≡ removing → own (finish w) ≡ own w
own-finish w p = sym (ap (λ ph. conns_of_channel w.channel ++ conns_of_phase ph) p)

own-cancel : (w : Waiter) → own (cancel w) ≡ []
unfolding cancel
own-cancel w = elim (Option-cases w.channel) [
  | inl e ↦
      ap (λ ch. own (cancel_with ch w)) e
      ∙ ap (λ ch. conns_of_channel ch ++ conns_of_phase removing) e
  | inr (res, e) ↦ ap (λ ch. own (cancel_with ch w)) e
]

own-clear : (w : Waiter) → w.queued ≡ true → IsClear w → own w ≡ []
own-clear w q (inl f) = absurd (cc)
own-clear w q (inr e) = e

own-send :
    (res : QueueResult) (w : Waiter) → w.queued ≡ true → IsClear w → own (send res w) ≡ conns_in res
own-send res w q c =
    ap (λ cs. conns_in res ++ cs) (append-empty _ _ (own-clear w q c)).1 ∙ append-nil (conns_in res)

give_up-Reach_waiting :
    (ch : Option QueueResult) (p : Pool) (held : List Conn)
    → Reach (sys p ((conns_of_channel ch ++ []) ++ held)) (sys (give_up ch p) held)
give_up-Reach_waiting none p held = start
give_up-Reach_waiting (some (answer c)) p held = step start (releases c held first)
give_up-Reach_waiting (some queue_timeout) p held = start
give_up-Reach_waiting (some canceled_result) p held = start

give_up-Reach :
    (w : Waiter) (p : Pool) (held : List Conn)
    → w.phase ≡ waiting
    → Reach (sys p (own w ++ held)) (sys (give_up w.channel p) held)
give_up-Reach w p held h =
    subst
      (λ ph.
        Reach (sys p ((conns_of_channel w.channel ++ conns_of_phase ph) ++ held))
          (sys (give_up w.channel p) held))
      (sym h) (give_up-Reach_waiting w.channel p held)

-- Equal connections of the call, after and before.
own_after :
    {s : System} {cs ds : List Conn} (p : Pool) (held : List Conn)
    → cs ≡ ds
    → Reach s (sys p (cs ++ held))
    → Reach s (sys p (ds ++ held))
own_after {s} p held e r = subst (λ xs. Reach s (sys p (xs ++ held))) e r

own_before :
    {t : System} {cs ds : List Conn} (p : Pool) (held : List Conn)
    → cs ≡ ds
    → Reach (sys p (cs ++ held)) t
    → Reach (sys p (ds ++ held)) t
own_before {t} p held e r = subst (λ xs. Reach (sys p (xs ++ held)) t) e r

module _ (float : Float64) (sort : Sort) (item : QueueItem) where
  retry-Reach :
      (seen : Seen) (rr : Dict ℕ) (p : Pool) (held : List Conn) (c : Conn)
      → (retry float sort seen item rr p).outcome ≡ connected c
      → Reach (sys p held) (sys (retry float sort seen item rr p).pool (c ∷ held))
  retry-Reach seen rr p held c e =
      subst
        (λ o. Reach (sys p held) (sys (retry float sort seen item rr p).pool (keep_outcome o held)))
        e
        (route-Reach float sort seen.context seen.strategy false item.model seen.discovery rr p
          held)

  SceneStep-IsClear :
      {s t : Scene} → IsClear s.waiter → SceneStep float sort item s t → IsClear t.waiter
  SceneStep-IsClear c (elsewhere p held r) = c
  SceneStep-IsClear c (serves seen rr d q e) = inl refl
  SceneStep-IsClear c (fails res q e) = inl refl
  SceneStep-IsClear (inl q) (takes res p e) = inl q
  SceneStep-IsClear {s} (inr o) (takes res p e) = inr (own-receive res s.waiter p e ∙ o)
  SceneStep-IsClear {s} c (gives_up p) = inr (own-cancel s.waiter)
  SceneStep-IsClear c (leaves p) = inl refl

  SceneStep-Reach :
      {s t : Scene}
      → IsClear s.waiter
      → SceneStep float sort item s t
      → Reach (sys s.pool (all_held s)) (sys t.pool (all_held t))
  SceneStep-Reach c (elsewhere p held r) = r
  SceneStep-Reach {s} c (serves seen rr d q e) =
      own_before s.pool s.held (sym (own-clear s.waiter q c)) (
        own_after _ s.held (sym (own-send (answer d) s.waiter q c))
          (retry-Reach seen rr s.pool s.held d e))
  SceneStep-Reach {s} c (fails res q e) =
      own_after s.pool s.held (own-clear s.waiter q c ∙ sym (own-send res s.waiter q c ∙ e)) start
  SceneStep-Reach {s} c (takes res p e) =
      own_after s.pool s.held (sym (own-receive res s.waiter p e)) start
  SceneStep-Reach {s} c (gives_up p) =
      own_after (give_up s.waiter.channel s.pool) s.held (sym (own-cancel s.waiter))
        (give_up-Reach s.waiter s.pool s.held p)
  SceneStep-Reach {s} c (leaves p) = own_after s.pool s.held (sym (own-finish s.waiter p)) start

  SceneRun-IsClear :
      {s t : Scene} → IsClear s.waiter → SceneRun float sort item s t → IsClear t.waiter
  SceneRun-IsClear c at_start = c
  SceneRun-IsClear c (goes_on r m) = SceneStep-IsClear (SceneRun-IsClear c r) m

  -- A call that has returned a connection has an empty channel, and its item is gone from the queue.
  pub data IsTidy (w : Waiter) : Type 0 where
    no_conn : conns_of_phase w.phase ≡ [] → IsTidy w
    taken : w.queued ≡ false → w.channel ≡ none → IsTidy w

  send-IsTidy : (res : QueueResult) (w : Waiter) → w.queued ≡ true → IsTidy w → IsTidy (send res w)
  send-IsTidy res w q (no_conn h) = no_conn h
  send-IsTidy res w q (taken f e) = absurd (cc)

  receive-IsTidy :
      (res : QueueResult) (w : Waiter)
      → w.phase ≡ waiting
      → w.channel ≡ some res
      → IsClear w
      → IsTidy (receive res w)
  receive-IsTidy res w p e (inl f) = taken f refl
  receive-IsTidy res w p e (inr o) = no_conn (own-receive res w p e ∙ o)

  SceneStep-IsTidy :
      {s t : Scene}
      → IsClear s.waiter
      → IsTidy s.waiter
      → SceneStep float sort item s t
      → IsTidy t.waiter
  SceneStep-IsTidy c h (elsewhere p held r) = h
  SceneStep-IsTidy {s} c h (serves seen rr d q e) = send-IsTidy (answer d) s.waiter q h
  SceneStep-IsTidy {s} c h (fails res q e) = send-IsTidy res s.waiter q h
  SceneStep-IsTidy {s} c h (takes res p e) = receive-IsTidy res s.waiter p e c
  SceneStep-IsTidy {s} c h (gives_up p) = no_conn (append-empty _ _ (own-cancel s.waiter)).1
  SceneStep-IsTidy c h (leaves p) = no_conn refl

  pub SceneRun-IsTidy :
      {s t : Scene}
      → IsClear s.waiter
      → IsTidy s.waiter
      → SceneRun float sort item s t
      → IsTidy t.waiter
  SceneRun-IsTidy c h at_start = h
  SceneRun-IsTidy c h (goes_on r m) =
      SceneStep-IsTidy (SceneRun-IsClear c r) (SceneRun-IsTidy c h r) m

  SceneStep-WaiterRun :
      {s t : Scene}
      → SceneStep float sort item s t
      → WaiterRun enqueued s.waiter
      → WaiterRun enqueued t.waiter
  SceneStep-WaiterRun (elsewhere p held r) w = w
  SceneStep-WaiterRun (serves seen rr d q e) w = next w (sends (answer d) q)
  SceneStep-WaiterRun (fails res q e) w = next w (sends res q)
  SceneStep-WaiterRun (takes res p e) w = next w (receives res p e)
  SceneStep-WaiterRun (gives_up p) w = next w (cancels p)
  SceneStep-WaiterRun (leaves p) w = next w (finishes p)

  -- A call that waits in the queue, among others that acquire, release, add and remove: at every
  -- moment the pool has got where it is by a history of its operations, at whose end the connections
  -- held are those of the others and, once each, those that the call has in its channel or has
  -- returned. The steps of the call are those of its run against the loop.
  pub SceneRun-Reach :
      (p : Pool) (held : List Conn) (t : Scene)
      → SceneRun float sort item (record { pool = p; held = held; waiter = enqueued }) t
      → Reach (sys p held) (sys t.pool (own t.waiter ++ t.held)) × WaiterRun enqueued t.waiter
  SceneRun-Reach p held t at_start = (start, begin)
  SceneRun-Reach p held t (goes_on {t = u} r m) =
      let (reached, run) = SceneRun-Reach p held u r in
      (
        Reach-trans reached (SceneStep-Reach (SceneRun-IsClear (inr refl) r) m),
        SceneStep-WaiterRun m run,
      )
