-- ===== src/Server/Proxied.antt =====
-- What `handleOpenAIProxy` of server/server.go does to the slots and the counters.
use llm_bridge.Backend.Pool.{Context, Pool, Conn}
use llm_bridge.Backend.Counts.{System, Reach, start, step, releases, first, Reach-trans}
use llm_bridge.Discovery.State.{Discovery}
use llm_bridge.Router.Best.{Float64}
use llm_bridge.Router.Slots.{sys, keep_outcome, route-Reach}
use llm_bridge.Router.Route.{Sort, Outcome, connected, no_servers, all_busy, queued, route}
use llm_bridge.Server.Proxy.{
  Body, unreadable_body, undecodable_body, asks_for, RouteError, no_servers_error, all_busy_error,
  queue_timeout_error, canceled_error, other_error, RouteResult, found_conn, route_failed, Waited,
  ProxyReply, proxy_failed, replied, Front, status_of, outcome_result, proxy_with, route_or_wait,
  handle_open_ai_proxy,
}
use llm_bridge.Base.{ℕ, String, ◌≡◌, refl, ap, ◌⊎◌, inl, inr, true, List, ◌∷◌, str_eq, Bool-cases}
use llm_bridge.Base.Int.{pos, add64}

abbrev pub hold_result : RouteResult → List Conn → List Conn
hold_result (found_conn c) held = c ∷ held
hold_result (route_failed e) held = held

-- What the wait in the queue does: a history of the pool, at whose end the caller holds what the wait
-- has given it.
abbrev pub IsFair : List Conn → (Pool → Waited) → Type 0
IsFair held wait =
    (p : Pool) → Reach (sys p held) (sys (wait p).pool (hold_result (wait p).result held))

-- How a request may end, as the two counters see it.
pub data IsCounted (reply : ProxyReply) (before after : Front) (status : ℕ) : Type 0 where
  served :
      reply ≡ replied status
      → after.reqs_success ≡ add64 before.reqs_success (pos 1)
      → after.reqs_error ≡ before.reqs_error
      → IsCounted reply before after status
  failed_exchange :
      reply ≡ proxy_failed
      → status ≡ 502
      → after.reqs_success ≡ before.reqs_success
      → after.reqs_error ≡ add64 before.reqs_error (pos 1)
      → IsCounted reply before after status
  not_routed :
      (status ≡ 503) ⊎ (status ≡ 500)
      → after.reqs_success ≡ before.reqs_success
      → after.reqs_error ≡ before.reqs_error
      → IsCounted reply before after status
  bad_request : status ≡ 400 → after ≡ before → IsCounted reply before after status

outcome_result-Reach :
    (held : List Conn) (wait : Pool → Waited)
    → IsFair held wait
    → (o : Outcome) (s : System) (p : Pool) → Reach s (sys p (keep_outcome o held))
    → let w = outcome_result wait p o in Reach s (sys w.pool (hold_result w.result held))
outcome_result-Reach held wait fair (connected c) s p r = r
outcome_result-Reach held wait fair no_servers s p r = r
outcome_result-Reach held wait fair all_busy s p r = r
outcome_result-Reach held wait fair queued s p r = Reach-trans r (fair p)

pub proxy_with-Reach :
    (held : List Conn) (reply : ProxyReply) (res : RouteResult) (p : Pool) (f : Front) (s : System)
    → Reach s (sys p (hold_result res held))
    → Reach s (sys (proxy_with reply res p f).0.pool held)
unfolding proxy_with
proxy_with-Reach held reply (route_failed e) p f s r = r
proxy_with-Reach held proxy_failed (found_conn c) p f s r = step r (releases c held first)
proxy_with-Reach held (replied status) (found_conn c) p f s r = step r (releases c held first)

status_of-cases : (e : RouteError) → (status_of e ≡ 503) ⊎ (status_of e ≡ 500)
status_of-cases no_servers_error = inl refl
status_of-cases all_busy_error = inl refl
status_of-cases queue_timeout_error = inl refl
status_of-cases canceled_error = inl refl
status_of-cases other_error = inr refl

proxy_with-IsCounted :
    (reply : ProxyReply) (res : RouteResult) (p : Pool) (before f : Front)
    → f.reqs_success ≡ before.reqs_success
    → f.reqs_error ≡ before.reqs_error
    → IsCounted reply before (proxy_with reply res p f).0 (proxy_with reply res p f).1
unfolding proxy_with
proxy_with-IsCounted reply (route_failed e) p before f a b = not_routed (status_of-cases e) a b
proxy_with-IsCounted proxy_failed (found_conn c) p before f a b =
    failed_exchange refl refl a (ap (λ n. add64 n (pos 1)) b)
proxy_with-IsCounted (replied status) (found_conn c) p before f a b =
    served refl (ap (λ n. add64 n (pos 1)) a) b

module _ (float : Float64) (sort : Sort) where
  -- A request gives back every slot that it took, on every path: whatever the body, the routing, the
  -- wait in the queue and the exchange come to, the pool ends at a history of its operations after
  -- which the connections held are those held before. The wait is fair: it holds what it returns.
  pub handle_open_ai_proxy-Reach :
      (strategy : String) (ctx : Context) (d : Discovery) (wait : Pool → Waited)
      (reply : ProxyReply) (body : Body) (f : Front) (held : List Conn)
      → IsFair held wait
      → let r = handle_open_ai_proxy float sort strategy ctx d wait reply body f in
        Reach (sys f.pool held) (sys r.0.pool held)
  unfolding handle_open_ai_proxy route_or_wait
  handle_open_ai_proxy-Reach strategy ctx d wait reply unreadable_body f held fair = start
  handle_open_ai_proxy-Reach strategy ctx d wait reply undecodable_body f held fair = start
  handle_open_ai_proxy-Reach strategy ctx d wait reply (asks_for model) f held fair =
      let r = route float sort strategy true ctx model d f.rr_index f.pool in
      let w = outcome_result wait r.pool r.outcome in
      elim (Bool-cases (str_eq model "")) [
        | inl e ↦ rw e start
        | inr e ↦ rw e (
            proxy_with-Reach held reply w.result w.pool (record f { rr_index = r.rr_index })
              (sys f.pool held)
              (outcome_result-Reach held wait fair r.outcome (sys f.pool held) r.pool
                (route-Reach float sort ctx strategy true model d f.rr_index f.pool held)))
      ]

  -- Every request ends in one of four ways: with the backend's status, counted as a success; with 502,
  -- counted as an error; with 503 or 500 where it found no server, not counted; or with 400, and
  -- nothing changed.
  pub handle_open_ai_proxy-IsCounted :
      (strategy : String) (ctx : Context) (d : Discovery) (wait : Pool → Waited)
      (reply : ProxyReply) (body : Body) (f : Front)
      → let r = handle_open_ai_proxy float sort strategy ctx d wait reply body f in
        IsCounted reply f r.0 r.1
  unfolding handle_open_ai_proxy route_or_wait
  handle_open_ai_proxy-IsCounted strategy ctx d wait reply unreadable_body f = bad_request refl refl
  handle_open_ai_proxy-IsCounted strategy ctx d wait reply undecodable_body f =
      bad_request refl refl
  handle_open_ai_proxy-IsCounted strategy ctx d wait reply (asks_for model) f =
      let r = route float sort strategy true ctx model d f.rr_index f.pool in
      let w = outcome_result wait r.pool r.outcome in
      elim (Bool-cases (str_eq model "")) [
        | inl e ↦ rw e (bad_request refl refl)
        | inr e ↦ rw e (
            proxy_with-IsCounted reply w.result w.pool f (record f { rr_index = r.rr_index }) refl
              refl)
      ]
