-- ===== src/Backend/ProxyTests.antt =====
-- Tests of `ProxyRequest` of backend/backend.go, and its theorem at a concrete input.
use llm_bridge.Backend.Pool.{Client, Pool, Conn}
use llm_bridge.Backend.Headers.{values_of, add_header, add_values, copy_headers}
use llm_bridge.Backend.Proxy.{
  NetUrl, Request, Response, Proxied, not_sent, unknown_server, answered, exchanged,
  resolve_reference, proxy_request,
}
use llm_bridge.Backend.Forwarded.{path_url, IsAbsolute, proxy_request-IsAbsolute}
use llm_bridge.Base.{
  String, ◌≡◌, refl, some, List, [], ◌∷◌, str_eq, if◌then◌else◌, Dict, lookup, insert, UniqueKeys,
}
use llm_bridge.Base.Int.{pos}

-- Every text is the path of a URL, and the text of a URL is its path.
abbrev plain_net : NetUrl
plain_net = record {
  parse = λ text. some (path_url text);
  resolve_path = λ base ref. if str_eq ref "" then base else ref;
  text_of = λ url. url.path;
  valid_method = λ method. str_eq method "POST";
}

proxy_model : Unit {0}
unfolding proxy_request resolve_reference copy_headers add_values add_header lookup insert
proxy_model = tt

abbrev one_client : Pool
one_client = record {
  clients =
      (
        "/api",
        record {
          server = record { url = "/api"; distance = pos 1; max_concurrent_requests = pos 2 };
          inflight = pos 1;
        },
      )
      ∷ [];
}

abbrev client_headers : Dict (List String)
client_headers = ("Accept", "a" ∷ "b" ∷ []) ∷ ("X", "c" ∷ []) ∷ []

abbrev ok_response : Response
ok_response = record { status = 200; headers = []; body = "done" }

abbrev sent : String → Proxied
sent id =
    proxy_request plain_net (record { server_id = id }) "POST" "/v1/chat/completions" "{}"
      client_headers (λ req. some ok_response) one_client

proxy_tests :
    (sent "/other" ≡ not_sent unknown_server)
    × (sent "/api"
        ≡ answered
            (record {
              method = "POST";
              url = path_url "/v1/chat/completions";
              body = "{}";
              headers = client_headers;
            })
            ok_response)
unfolding proxy_model
proxy_tests = (refl, refl)

chat-IsAbsolute : IsAbsolute plain_net "/v1/chat/completions"
chat-IsAbsolute = record { parsed = refl; kept = λ base. refl; named = refl }

abbrev to_api : Conn
to_api = record { server_id = "/api" }

abbrev api_client : Client
api_client = record {
  server = record { url = "/api"; distance = pos 1; max_concurrent_requests = pos 2 };
  inflight = pos 1;
}

api-known : lookup "/api" one_client.clients ≡ some api_client
unfolding lookup
api-known = refl

client_headers-UniqueKeys : UniqueKeys client_headers
unfolding lookup
client_headers-UniqueKeys = (refl, (refl, tt))

proxy_request-IsAbsolute_example :
    (req : Request) × (sent "/api" ≡ exchanged plain_net req (some ok_response))
    × (req.method ≡ "POST")
    × (req.body ≡ "{}")
    × (req.url ≡ path_url "/v1/chat/completions")
    × ((j : String) → values_of (lookup j req.headers) ≡ values_of (lookup j client_headers))
proxy_request-IsAbsolute_example =
    proxy_request-IsAbsolute plain_net to_api api_client (path_url "/api") "POST"
      "/v1/chat/completions" "{}" client_headers (λ req. some ok_response) one_client api-known refl
      chat-IsAbsolute refl refl client_headers-UniqueKeys
