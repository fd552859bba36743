-- ===== src/Server/ServeTests.antt =====
-- Tests of the endpoints of the OpenAI API in server/server.go, and their theorem at a concrete input.
use llm_bridge.Backend.Pool.{acquire, add_inflight, release, get_server, inflight}
use llm_bridge.Backend.Headers.{copy_headers, add_values, add_header, set_header}
use llm_bridge.Backend.Proxy.{NetUrl, Request, Response, Url, resolve_reference, proxy_request}
use llm_bridge.Discovery.State.{servers_for_model}
use llm_bridge.Router.Select.{collect, groups, groups_from, try_server, try_from, try_groups}
use llm_bridge.Router.Models.{by_insertion, insertion_sort, insert_info, millionths}
use llm_bridge.Router.Route.{fall_back, route_sorted, route_infos, route}
use llm_bridge.Base.{
  String, ◌≡◌, refl, true, Option, none, some, [], ◌∷◌, str_eq, if◌then◌else◌, lookup, insert,
}
use llm_bridge.Server.Proxy.{Body, unreadable_body, asks_for, Front, proxy_with, route_or_wait}
use llm_bridge.Server.ProxyTests.{knows_a, times_out, front}
use llm_bridge.Server.Relay.{Relayed, relayed, relay, respond_error}
use llm_bridge.Server.Serve.{Endpoint, chat_completions, completions, Incoming, serve_with, serve}
use llm_bridge.Server.Served.{status_sent}
use llm_bridge.Base.Int.{pos, add64}

abbrev url_at : String → Url
url_at path = record { scheme = "http"; host = "a"; path = path; raw_query = "" }

abbrev plain_net : NetUrl
plain_net = record {
  parse = λ text. some (url_at text);
  resolve_path = λ base ref. if str_eq ref "" then base else ref;
  text_of = λ url. url.path;
  valid_method = λ method. str_eq method "POST";
}

abbrev streams : Response
streams = record { status = 201; headers = ("Content-Type", "text/plain" ∷ []) ∷ []; body = "done" }

abbrev chat : Body → Incoming
chat body = record { body = body; stream = true; text = "{}"; headers = [] }

abbrev answers : Request → Option Response
answers req = some streams

abbrev silent : Request → Option Response
silent req = none

abbrev served : (Request → Option Response) → Endpoint → Body → Front × Relayed
served client endpoint body =
    serve plain_net client millionths by_insertion "queue" none knows_a times_out endpoint
      (chat body) front

serve_tests :
    ((served answers completions (asks_for "m")).1 ≡ relayed streams)
    × ((served answers completions (asks_for "m")).0.reqs_success ≡ pos 5)
    × (inflight "a" (served answers completions (asks_for "m")).0.pool ≡ pos 1)
    × (status_sent (served silent chat_completions (asks_for "m")).1 ≡ some 502)
    × (status_sent (served answers chat_completions (asks_for "n")).1 ≡ some 503)
    × (status_sent (served answers chat_completions (asks_for "")).1 ≡ some 400)
    × (status_sent (served answers chat_completions unreadable_body).1 ≡ some 400)
unfolding serve serve_with route_or_wait proxy_with route route_infos route_sorted fall_back
    try_groups try_from try_server groups groups_from collect get_server acquire add_inflight
    inflight release servers_for_model lookup insert add64 insertion_sort insert_info proxy_request
    resolve_reference relay copy_headers add_values add_header set_header respond_error
serve_tests = (refl, refl, refl, refl, refl, refl, refl)
