-- ===== src/Server/ExportTests.antt =====
-- Tests of server/metrics_exporter.go's model and of the relay of headers and of the server ids in
-- server/server.go, and the theorems on them at concrete inputs.
use llm_bridge.Config.Store.{written}
use llm_bridge.Backend.Pool.{Pool}
use llm_bridge.Backend.Headers.{values_of, set_header, add_header, add_values, copy_headers}
use llm_bridge.Backend.Proxy.{Request, Response, answered}
use llm_bridge.Discovery.State.{RawMessage, decoded}
use llm_bridge.Discovery.Aligned.{IsAligned}
use llm_bridge.Metrics.Collector.{ServerMetrics, no_metrics}
use llm_bridge.Metrics.Text.{is_space, none_of}
use llm_bridge.Router.Select.{collect}
use llm_bridge.Discovery.State.{servers_for_model}
use llm_bridge.Server.Comments.{Bytes}
use llm_bridge.Server.Admin.{ServerState, handle_update_server, handle_delete_server}
use llm_bridge.Server.AdminTests.{no_reals, saves, any_url, server, state, a_and_b, too_far}
use llm_bridge.Server.Decimal.{format_int}
use llm_bridge.Metrics.Words.{is_word}
use llm_bridge.Server.Exporter.{write_metric, sort_strings, export_metrics}
use llm_bridge.Server.Exported.{samples, all_samples, samples-export_metrics}
use llm_bridge.Server.Listing.{handle_get_server}
use llm_bridge.Server.Ident.{path_unescape, get_server_at, update_server_at, delete_server_at}
use llm_bridge.Server.Escaped.{path_escape, wildcard_of, handlers-path_escape}
use llm_bridge.Server.Relay.{relayed, relay}
use llm_bridge.Server.Unchanged.{passed_on, relay-answered}
use llm_bridge.Server.Sane.{IsSane}
use llm_bridge.Server.System.{Operation, adds, updates, visits, acquires, operate_all}
use llm_bridge.Server.Sound.{IsSound, operate_all-collect}
use llm_bridge.Base.Text.{runes}
use llm_bridge.Base.{
  ℕ, String, ◌≡◌, refl, Bool, true, false, not, ◌&&◌, Option, none, some, List, [], ◌∷◌, arith,
  ◌==◌, if◌then◌else◌, is_some, All, get_elem?, Dict, lookup, insert, keys, UniqueKeys,
}
use llm_bridge.Base.Int.{pos, negsuc, ◌≤ℤ◌}

abbrev tenths : ℕ → Bytes
tenths v = runes "0.5"

tenths-is_word : (v : ℕ) → is_word (tenths v) ≡ true
unfolding is_space
tenths-is_word v = refl

abbrev collected : Dict (ServerMetrics no_reals)
collected =
    ("http://b", record (no_metrics no_reals) { requests_running = pos 12 })
    ∷ ("http://a", no_metrics no_reals)
    ∷ []

abbrev one_busy : Pool
one_busy = record {
  clients = ("http://a", record { server = server "http://a" 1; inflight = pos 3 }) ∷ [];
}

abbrev exported : Bytes
exported = export_metrics no_reals tenths collected one_busy (pos 10) (negsuc 0)

block_test :
    write_metric "m" "gauge" "help" "l" (format_int (pos 205)) []
    ≡ runes "# HELP m help\n# TYPE m gauge\nm{l} 205\n"
unfolding write_metric format_int
block_test = refl

sorted_test :
    sort_strings ("http://b" ∷ "http://ab" ∷ "http://a" ∷ [])
    ≡ "http://a" ∷ "http://ab" ∷ "http://b" ∷ []
unfolding sort_strings
sorted_test = refl

collected-clean : All (λ url. none_of is_space (runes url) ≡ true) (sort_strings (keys collected))
unfolding sort_strings is_space
collected-clean = (refl, (refl, tt))

samples-export_metrics_example :
    samples exported
    ≡ all_samples no_reals tenths
        (sort_strings (keys collected))
        collected
        one_busy
        (pos 10)
        (negsuc 0)
samples-export_metrics_example =
    samples-export_metrics no_reals tenths tenths-is_word collected one_busy (pos 10) (negsuc 0)
      collected-clean

abbrev request : Request
request = record {
  method = "POST";
  url = record { scheme = "http"; host = "a"; path = "/v1/completions"; raw_query = "" };
  body = "{}";
  headers = [];
}

abbrev typed : Response
typed = record {
  status = 200;
  headers = ("Content-Type", "text/plain" ∷ "b" ∷ []) ∷ ("X", "1" ∷ "2" ∷ []) ∷ [];
  body = "done";
}

relay_tests :
    (relay true true (answered request typed)
      ≡ relayed (record typed {
        headers = ("Content-Type", "text/plain" ∷ []) ∷ ("X", "1" ∷ "2" ∷ []) ∷ [];
      }))
    × (relay false true (answered request typed) ≡ relayed typed)
unfolding relay copy_headers add_values add_header set_header lookup insert
relay_tests = (refl, refl)

typed-UniqueKeys : UniqueKeys typed.headers
unfolding lookup
typed-UniqueKeys = (refl, (refl, tt))

relay-answered_example :
    (headers : Dict (List String)) × (relay true true (answered request typed)
      ≡ relayed (record { status = 200; headers = headers; body = "done" }))
    × ((j : String) → values_of (lookup j headers) ≡ passed_on true j typed.headers)
relay-answered_example =
    relay-answered true true request typed ((λ e. cc), ((λ e. cc), tt)) typed-UniqueKeys

abbrev no_slash : ℕ → Bool
no_slash c = not (c == b'/') && not (c == b'%') && not (c == b':') && not (c == b'?')

abbrev named_a : Bytes → String
named_a bytes = if is_some (get_elem? bytes 1) then "b" else "a"

-- An id without a slash is decoded twice: by net/url, and by the handler.
twice_tests :
    (wildcard_of (λ c. not (c == b'%')) (runes "%2541") ≡ some (runes "%41"))
    × (path_unescape (runes "%41") ≡ some (runes "A"))
unfolding path_unescape
twice_tests = (refl, refl)

ident_tests :
    (path_escape no_slash (runes "a/b:") ≡ runes "a%2Fb%3A")
    × (path_unescape (runes "a%2fb%3A") ≡ some (runes "a/b:"))
    × (path_unescape (runes "a%2") ≡ none)
unfolding path_unescape
ident_tests = (refl, refl, refl)

abbrev two : ServerState no_reals
two = state a_and_b

-- What net/url leaves in a path.
abbrev keeps_slash : ℕ → Bool
keeps_slash c = not (c == b'%')

handlers-path_escape_example :
    let target = path_escape no_slash (runes "/:") in
    (wildcard_of keeps_slash target ≡ some target)
    × ((get_server_at named_a target two.store.config two.discovery two.pool).1
        ≡ handle_get_server "b" two.store.config two.discovery two.pool)
    × (update_server_at named_a no_reals saves any_url target written (some too_far) two
        ≡ handle_update_server no_reals saves any_url written "b" too_far two)
    × (delete_server_at named_a no_reals saves any_url target written two
        ≡ handle_delete_server no_reals saves any_url written "b" two)
handlers-path_escape_example =
    handlers-path_escape keeps_slash no_slash b'/' (b':' ∷ []) named_a no_reals saves any_url
      written too_far two refl refl refl refl refl refl (omega arith)

abbrev name_of : RawMessage → Option String
name_of raw = some raw

abbrev start : ServerState no_reals
start = record two { pool = record { clients = [] } }

start-IsSound : IsSound any_url no_reals start
unfolding lookup
start-IsSound = ((λ j. tt), record { unique = tt; same_keys = λ m. refl; served = λ m e. cc })

abbrev operations : List (Operation no_reals saves any_url name_of)
operations =
    adds written (some (server "c" 3))
    ∷ updates written "b" too_far
    ∷ visits "a" none (decoded ("smart" ∷ []))
    ∷ acquires none "a"
    ∷ []

operate_all-collect_example :
    let t = operate_all no_reals saves any_url name_of operations start in
    IsSane any_url t.pool
    × IsAligned t.discovery
    × ((model : String)
        → All (λ sj. pos 1 ≤ℤ sj.max_conn) (collect t.pool (servers_for_model model t.discovery)))
operate_all-collect_example =
    operate_all-collect any_url no_reals saves name_of operations start start-IsSound
