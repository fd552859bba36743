-- ===== src/Server/Queued.antt =====
-- `handleOpenAIProxy` of server/server.go for a request that waits in the queue of router/queue.go.
use llm_bridge.Backend.Pool.{Pool, Context, Conn}
use llm_bridge.Backend.Counts.{System, Removes, first, later, releases, step, Reach, Reach-trans}
use llm_bridge.Discovery.State.{Discovery}
use llm_bridge.Router.Best.{Float64}
use llm_bridge.Router.Slots.{sys, keep_outcome, route-Reach}
use llm_bridge.Router.Route.{Sort, queued, route}
use llm_bridge.Router.Queue.{QueueItem}
use llm_bridge.Router.Waiter.{returned, Waiter, enqueued}
use llm_bridge.Router.Wait.{Scene, conns_of_channel, conns_of_phase, SceneRun}
use llm_bridge.Router.Waited.{IsTidy, no_conn, taken, SceneRun-IsTidy, SceneRun-Reach}
use llm_bridge.Base.{
  String, ◌≡◌, refl, sym, ap, subst, ◌∙◌, ◌⊎◌, inl, inr, true, false, Option, none, some, List, [],
  ◌∷◌, ◌++◌, append-nil, str_eq,
}
use llm_bridge.Server.Proxy.{
  proxy_failed, replied, proxy_with, asks_for, RouteError, RouteResult, found_conn, route_failed,
  Waited, ProxyReply, Front, route_or_wait, handle_open_ai_proxy,
}

-- What a call of `enqueue` returns: its connection, or an error.
abbrev pub returned_result : Option Conn → RouteError → RouteResult
returned_result none e = route_failed e
returned_result (some c) e = found_conn c

-- The wait that ends so.
abbrev pub waited_in : Scene → Option Conn → RouteError → Waited
waited_in t o e = record { pool = t.pool; result = returned_result o e }

Removes-middle :
    (c : Conn) (left held : List Conn) → Removes c ((left ++ c ∷ []) ++ held) (left ++ held)
Removes-middle c [] held = first
Removes-middle c (x ∷ left) held = later (Removes-middle c left held)

-- The connection that was returned is released in the end, and what is left is what was beside it.
returned_result-Reach :
    (left held : List Conn) (reply : ProxyReply) (o : Option Conn) (e : RouteError) (p : Pool)
    (f : Front) (s : System)
    → Reach s (sys p ((left ++ conns_of_phase (returned o)) ++ held))
    → Reach s (sys (proxy_with reply (returned_result o e) p f).0.pool (left ++ held))
unfolding proxy_with
returned_result-Reach left held reply none e p f s r =
    subst (λ cs. Reach s (sys p (cs ++ held))) (append-nil left) r
returned_result-Reach left held proxy_failed (some c) e p f s r =
    step r (releases c (left ++ held) (Removes-middle c left held))
returned_result-Reach left held (replied status) (some c) e p f s r =
    step r (releases c (left ++ held) (Removes-middle c left held))

returned-none : (o : Option Conn) → conns_of_phase (returned o) ≡ [] → o ≡ none
returned-none none h = refl
returned-none (some c) h = cc

module _ (float : Float64) (sort : Sort) (item : QueueItem) where
  IsTidy-cases :
      (w : Waiter) (o : Option Conn)
      → w.phase ≡ returned o
      → IsTidy float sort item w
      → (o ≡ none) ⊎ (w.channel ≡ none)
  IsTidy-cases w o p (no_conn h) = inl (returned-none o (sym (ap conns_of_phase p) ∙ h))
  IsTidy-cases w o p (taken f e) = inr e

module _ (float : Float64) (sort : Sort) where
  -- A request that waits in the queue, with other requests that acquire and release while it waits:
  -- once it is answered, the pool is where a history of its operations leads, at whose end the others'
  -- connections are held, and beside them only what is left in the channel of its call of `enqueue`. A
  -- call that has returned a connection has left nothing there; one whose context was done may have.
  -- The request names a model, `route` sends it to the queue, and the call has returned.
  pub handle_open_ai_proxy-SceneRun :
      (strategy : String) (ctx : Context) (d : Discovery) (model : String) (reply : ProxyReply)
      (f : Front) (held : List Conn) (item : QueueItem) (t : Scene) (o : Option Conn)
      (e : RouteError)
      → let r = route float sort strategy true ctx model d f.rr_index f.pool in
        str_eq model "" ≡ false
        → r.outcome ≡ queued
        → SceneRun float sort item (record { pool = r.pool; held = held; waiter = enqueued }) t
        → t.waiter.phase ≡ returned o
        → let q =
            handle_open_ai_proxy float sort strategy ctx d
              (λ p. waited_in t o e)
              reply
              (asks_for model)
              f in
          Reach (sys f.pool held) (sys q.0.pool (conns_of_channel t.waiter.channel ++ t.held))
          × ((o ≡ none) ⊎ (t.waiter.channel ≡ none))
  unfolding handle_open_ai_proxy route_or_wait
  handle_open_ai_proxy-SceneRun strategy ctx d model reply f held item t o e named waits run done =
      let r = route float sort strategy true ctx model d f.rr_index f.pool in
      let left = conns_of_channel t.waiter.channel in
      let begun : Reach (sys f.pool held) (sys r.pool held) =
        subst (λ out. Reach (sys f.pool held) (sys r.pool (keep_outcome out held))) waits
          (route-Reach float sort ctx strategy true model d f.rr_index f.pool held) in
      let ended : Reach (sys r.pool held)
          (sys t.pool ((left ++ conns_of_phase (returned o)) ++ t.held)) =
        subst (λ ph. Reach (sys r.pool held) (sys t.pool ((left ++ conns_of_phase ph) ++ t.held)))
          done (SceneRun-Reach float sort item r.pool held t run).0 in
      (
        rw (named, waits)
            (returned_result-Reach left t.held reply o e t.pool (record f { rr_index = r.rr_index })
              (sys f.pool held) (Reach-trans begun ended)),
        IsTidy-cases float sort item t.waiter o done
            (SceneRun-IsTidy float sort item (inr refl) (no_conn refl) run),
      )
