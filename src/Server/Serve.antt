-- ===== src/Server/Serve.antt =====
-- server/server.go: the three endpoints of the OpenAI API, `handleChatCompletions`,
-- `handleCompletions` and `handleEmbeddings`, from a request to the answer that its client gets:
-- `handleOpenAIProxy` with the exchange that it makes with a server. Of an error's message the fixed
-- part is kept.
use llm_bridge.Backend.Pool.{Context, Pool}
use llm_bridge.Backend.Proxy.{
  NetUrl, Request, Response, Proxied, not_sent, unknown_server, proxy_request,
}
use llm_bridge.Discovery.State.{Discovery}
use llm_bridge.Router.Best.{Float64}
use llm_bridge.Router.Route.{Sort}
use llm_bridge.Server.Proxy.{
  Body, unreadable_body, undecodable_body, asks_for, RouteError, no_servers_error, all_busy_error,
  queue_timeout_error, canceled_error, other_error, RouteResult, found_conn, route_failed, Waited,
  Front, status_of, proxy_with, route_or_wait,
}
use llm_bridge.Server.Relay.{Relayed, respond_error, relay, reply_of}
use llm_bridge.Base.{String, Bool, true, false, Option, List, [], str_eq, if◌then◌else◌, Dict}

pub data Endpoint : Type 0 where
  chat_completions completions embeddings : Endpoint

-- Which handler looks at the stream flag.
abbrev pub checks_stream : Endpoint → Bool
checks_stream chat_completions = true
checks_stream completions = false
checks_stream embeddings = false

abbrev pub path_of : Endpoint → String
path_of chat_completions = "/v1/chat/completions"
path_of completions = "/v1/completions"
path_of embeddings = "/v1/embeddings"

-- A request: its body as it is decoded, with the stream flag, and as it came.
pub record Incoming : Type 0 where
  pub body : Body
  pub stream : Bool
  pub text : String
  pub headers : Dict (List String)

abbrev pub message_of : RouteError → String
message_of no_servers_error = "no servers available for model"
message_of all_busy_error = "all servers at capacity"
message_of queue_timeout_error = "queue wait timed out"
message_of canceled_error = "request canceled"
message_of other_error = "routing error"

module _ (net : NetUrl) (client_do : Request → Option Response) where
  -- The exchange with the server, once there is a connection.
  abbrev pub exchange_of : Endpoint → Incoming → RouteResult → Pool → Proxied
  exchange_of endpoint inc (route_failed e) p = not_sent unknown_server
  exchange_of endpoint inc (found_conn c) p =
      proxy_request net c "POST" (path_of endpoint) inc.text inc.headers client_do p

  -- The handler from the result of `Route` on.
  unfoldable pub serve_with : Endpoint → Incoming → RouteResult → Pool → Front → Front × Relayed
  serve_with endpoint inc (route_failed e) p f =
      (record f { pool = p }, respond_error (status_of e) (message_of e) [])
  serve_with endpoint inc (found_conn c) p f =
      let x = exchange_of endpoint inc (found_conn c) p in
      ((proxy_with (reply_of x) (found_conn c) p f).0, relay (checks_stream endpoint) inc.stream x)

  module _ (float : Float64) (sort : Sort) where
    abbrev pub serve_body :
        String
        → Context
        → Discovery
        → (Pool → Waited)
        → Endpoint
        → Incoming
        → Body
        → Front
        → Front × Relayed
    serve_body strategy ctx d wait endpoint inc unreadable_body f =
        (f, respond_error 400 "failed to read request body" [])
    serve_body strategy ctx d wait endpoint inc undecodable_body f =
        (f, respond_error 400 "invalid JSON body" [])
    serve_body strategy ctx d wait endpoint inc (asks_for model) f =
        let r = route_or_wait float sort strategy ctx model d wait f in
        if str_eq model ""
        then (f, respond_error 400 "model field is required" [])
        else serve_with endpoint inc r.1.result r.1.pool r.0

    -- The whole handler.
    unfoldable pub serve :
        String
        → Context
        → Discovery
        → (Pool → Waited)
        → Endpoint
        → Incoming
        → Front
        → Front × Relayed
    unfolding serve_with
    serve strategy ctx d wait endpoint inc f =
        serve_body strategy ctx d wait endpoint inc inc.body f
