-- ===== src/Server/Served.antt =====
-- What a client of the OpenAI API of server/server.go gets, against what is counted and released.
use llm_bridge.Backend.Pool.{Context, Pool}
use llm_bridge.Backend.Proxy.{NetUrl, Request, Response, Proxied, not_sent, send_failed, answered}
use llm_bridge.Discovery.State.{Discovery}
use llm_bridge.Router.Best.{Float64}
use llm_bridge.Router.Route.{Sort}
use llm_bridge.Base.{ℕ, String, Option, none, some, UniqueKeys}
use llm_bridge.Server.Proxy.{
  Body, unreadable_body, undecodable_body, asks_for, Waited, Front, ProxyReply, proxy_failed,
  route_or_wait,
}
use llm_bridge.Server.Relay.{Relayed, error_response, relayed, relay_panic, reply_of}
use llm_bridge.Server.Unchanged.{HasValues}
use llm_bridge.Server.Serve.{Endpoint, Incoming, exchange_of}

-- The status that the client sees; a panic has none.
abbrev pub status_sent : Relayed → Option ℕ
status_sent (error_response status msg headers) = some status
status_sent (relayed resp) = some resp.status
status_sent relay_panic = none

-- The headers of the response, if there is one, are as net/http reads them.
abbrev pub IsReadable : Option Response → Type 0
IsReadable none = Unit
IsReadable (some resp) = HasValues resp.headers × UniqueKeys resp.headers

abbrev IsWellFormed : Proxied → Type 0
IsWellFormed (not_sent e) = Unit
IsWellFormed (send_failed req) = Unit
IsWellFormed (answered req resp) = HasValues resp.headers × UniqueKeys resp.headers

module _ (net : NetUrl) (client_do : Request → Option Response) (float : Float64)
    (sort : Sort) where
  -- What the exchange with the server comes to, if the request gets that far.
  abbrev pub reply_to :
      String
      → Context
      → Discovery
      → (Pool → Waited)
      → Endpoint
      → Incoming
      → Body
      → Front
      → ProxyReply
  reply_to strategy ctx d wait endpoint inc unreadable_body f = proxy_failed
  reply_to strategy ctx d wait endpoint inc undecodable_body f = proxy_failed
  reply_to strategy ctx d wait endpoint inc (asks_for model) f =
      let r = route_or_wait float sort strategy ctx model d wait f in
      reply_of (exchange_of net client_do endpoint inc r.1.result r.1.pool)
