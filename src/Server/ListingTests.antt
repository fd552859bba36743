-- ===== src/Server/ListingTests.antt =====
-- Tests of the reading handlers in server/server.go, and their theorems at concrete inputs.
use llm_bridge.Config.Types.{Config, default_config}
use llm_bridge.Backend.Pool.{Pool, inflight}
use llm_bridge.Discovery.State.{Discovery, RawMessage, is_healthy}
use llm_bridge.Discovery.Aligned.{IsAligned}
use llm_bridge.Server.Listing.{
  handle_models, model_list, ServerRow, handle_list_servers, handle_get_server, row_from,
}
use llm_bridge.Base.{
  String, ◌≡◌, refl, inl, inr, Bool, true, false, Option, none, some, [], ◌∷◌, str_eq, Bool-cases,
  length, lookup,
}
use llm_bridge.Base.Int.{pos}

abbrev one_model : Discovery
one_model = record {
  servers = "a" ∷ [];
  models = ("m", "a" ∷ []) ∷ [];
  model_details = ("m", "{}") ∷ [];
  healthy = ("a", true) ∷ [];
}

abbrev bare : String → RawMessage
bare name = name

abbrev unknown : String → RawMessage
unknown name = "?"

one_model-IsAligned : IsAligned one_model
unfolding lookup
one_model-IsAligned = record {
  unique = (refl, tt);
  same_keys = λ m. elim (Bool-cases (str_eq "m" m)) [ inl e ↦ rw e refl | inr e ↦ rw e refl ];
  served =
      λ m e. elim (Bool-cases (str_eq "m" m)) [ inl t ↦ cc (rw t at e) | inr t ↦ cc (rw t at e) ];
}

abbrev two_servers : Config
two_servers = record default_config {
  servers =
      record { url = "a"; distance = pos 1; max_concurrent_requests = pos 2 }
      ∷ record { url = "b"; distance = pos 2; max_concurrent_requests = pos 4 }
      ∷ [];
}

abbrev pool : Pool
pool = record {
  clients =
      (
        "a",
        record {
          server = record { url = "a"; distance = pos 1; max_concurrent_requests = pos 2 };
          inflight = pos 1;
        },
      )
      ∷ [];
}

abbrev health_of : Option ServerRow → Option Bool
health_of none = none
health_of (some row) = some row.healthy

listing_tests :
    (handle_models bare one_model ≡ "{}" ∷ [])
    × (health_of (handle_get_server "a" two_servers one_model pool) ≡ some true)
    × (health_of (handle_get_server "b" two_servers one_model pool) ≡ some false)
    × (handle_get_server "c" two_servers one_model pool ≡ none)
    × (length (handle_list_servers two_servers one_model pool) ≡ 2)
unfolding handle_models model_list handle_get_server row_from handle_list_servers is_healthy lookup
    inflight
listing_tests = (refl, refl, refl, refl, refl)
