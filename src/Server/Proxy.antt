-- ===== src/Server/Proxy.antt =====
-- server/server.go: `handleOpenAIProxy`, from the body of a request to the status of the answer. What
-- the backend replies and what a wait in the queue comes to are arguments.
use llm_bridge.Backend.Pool.{Context, Pool, Conn, release}
use llm_bridge.Discovery.State.{Discovery}
use llm_bridge.Router.Best.{Float64}
use llm_bridge.Router.Route.{Sort, Outcome, connected, no_servers, all_busy, queued, route}
use llm_bridge.Base.{ℕ, String, true, str_eq, if◌then◌else◌, Dict}
use llm_bridge.Base.Int.{ℤ, pos, add64}

-- The body of a request, read and decoded.
pub data Body : Type 0 where
  unreadable_body undecodable_body : Body
  asks_for : String → Body

pub data RouteError : Type 0 where
  no_servers_error all_busy_error queue_timeout_error canceled_error other_error : RouteError

pub data RouteResult : Type 0 where
  found_conn : Conn → RouteResult
  route_failed : RouteError → RouteResult

-- A wait in the queue: its result, and the pool at its end.
pub record Waited : Type 0 where
  pub pool : Pool
  pub result : RouteResult

-- `ProxyRequest`: an error, or the status of the backend's answer.
pub data ProxyReply : Type 0 where
  proxy_failed : ProxyReply
  replied : ℕ → ProxyReply

-- The part of the server's state that a request changes.
pub record Front : Type 0 where
  pub pool : Pool
  pub rr_index : Dict ℕ
  pub reqs_success : ℤ
  pub reqs_error : ℤ

-- The status for an error of `Route`.
abbrev pub status_of : RouteError → ℕ
status_of no_servers_error = 503
status_of all_busy_error = 503
status_of queue_timeout_error = 503
status_of canceled_error = 503
status_of other_error = 500

abbrev pub outcome_result : (Pool → Waited) → Pool → Outcome → Waited
outcome_result wait p (connected c) = record { pool = p; result = found_conn c }
outcome_result wait p no_servers = record { pool = p; result = route_failed no_servers_error }
outcome_result wait p all_busy = record { pool = p; result = route_failed all_busy_error }
outcome_result wait p queued = wait p

-- The rest of the handler: with a connection, the exchange, its count, and the deferred release.
unfoldable pub proxy_with : ProxyReply → RouteResult → Pool → Front → Front × ℕ
proxy_with reply (route_failed e) p f = (record f { pool = p }, status_of e)
proxy_with proxy_failed (found_conn c) p f =
    (record f { pool = release c p; reqs_error = add64 f.reqs_error (pos 1) }, 502)
proxy_with (replied status) (found_conn c) p f =
    (record f { pool = release c p; reqs_success = add64 f.reqs_success (pos 1) }, status)

module _ (float : Float64) (sort : Sort) where
  -- `Route`: `route`, and the wait where that ends in the queue.
  unfoldable pub route_or_wait :
      String → Context → String → Discovery → (Pool → Waited) → Front → Front × Waited
  route_or_wait strategy ctx model d wait f =
      let r = route float sort strategy true ctx model d f.rr_index f.pool in
      (record f { rr_index = r.rr_index }, outcome_result wait r.pool r.outcome)

  unfoldable pub handle_open_ai_proxy :
      String → Context → Discovery → (Pool → Waited) → ProxyReply → Body → Front → Front × ℕ
  unfolding route_or_wait proxy_with
  handle_open_ai_proxy strategy ctx d wait reply unreadable_body f = (f, 400)
  handle_open_ai_proxy strategy ctx d wait reply undecodable_body f = (f, 400)
  handle_open_ai_proxy strategy ctx d wait reply (asks_for model) f =
      let r = route_or_wait strategy ctx model d wait f in
      if str_eq model "" then (f, 400) else proxy_with reply r.1.result r.1.pool r.0
