-- ===== src/Server/Relay.antt =====
-- server/server.go: what `handleOpenAIProxy` writes to the client once it has a connection, and what it
-- asks the pool to send. The writer's headers are those set so far.
use llm_bridge.Backend.Headers.{set_header, add_values}
use llm_bridge.Backend.Proxy.{Response, Proxied, not_sent, send_failed, answered}
use llm_bridge.Server.Proxy.{ProxyReply, proxy_failed, replied}
use llm_bridge.Base.{
  ℕ, String, Bool, ◌&&◌, Option, none, some, List, [], ◌∷◌, str_eq, if◌then◌else◌, Dict,
}

-- What the client is sent; `relay_panic` is an index out of range.
pub data Relayed : Type 0 where
  error_response : ℕ → String → Dict (List String) → Relayed
  relayed : Response → Relayed
  relay_panic : Relayed

abbrev pub content_type : String
content_type = "Content-Type"

abbrev pub set_first : String → List String → Dict (List String) → Option (Dict (List String))
set_first key [] h = none
set_first key (v ∷ vals) h = some (set_header key v h)

abbrev pub after_headers {ℓ} : {A : Type ℓ} → Option A → (A → Option A) → Option A
after_headers none f = none
after_headers (some h) f = f h

-- The loop over the headers of the response: in a stream its content type replaces the one that is
-- set, everything else is added.
unfoldable pub relay_headers :
    Bool → Dict (List String) → Dict (List String) → Option (Dict (List String))
relay_headers streamed [] h = some h
relay_headers streamed ((key, vals) ∷ headers) h =
    after_headers
      (if str_eq key content_type && streamed
        then set_first key vals h
        else some (add_values key vals h))
      (relay_headers streamed headers)

-- The headers that are set before the exchange.
unfoldable pub first_headers : Bool → Dict (List String)
first_headers streamed = if streamed then set_header content_type "text/event-stream" [] else []

-- `respondError`: the content type and the message.
unfoldable pub respond_error : ℕ → String → Dict (List String) → Relayed
respond_error status msg h =
    error_response status msg (set_header content_type "application/json" h)

abbrev pub relay_response : Response → Option (Dict (List String)) → Relayed
relay_response resp none = relay_panic
relay_response resp (some h) =
    relayed (record { status = resp.status; headers = h; body = resp.body })

abbrev pub relay_with : Bool → Proxied → Dict (List String) → Relayed
relay_with streamed (not_sent e) h = respond_error 502 "proxy error" h
relay_with streamed (send_failed req) h = respond_error 502 "proxy error" h
relay_with streamed (answered req resp) h =
    relay_response resp (relay_headers streamed resp.headers h)

-- The exchange and its relay: whether the endpoint looks at the stream flag, and the flag of the body.
unfoldable pub relay : Bool → Bool → Proxied → Relayed
unfolding relay_headers first_headers respond_error
relay check_stream stream r =
    relay_with (check_stream && stream) r (first_headers (check_stream && stream))

-- What the counters and the release see of the exchange.
abbrev pub reply_of : Proxied → ProxyReply
reply_of (not_sent e) = proxy_failed
reply_of (send_failed req) = proxy_failed
reply_of (answered req resp) = replied resp.status
