-- ===== src/Discovery/Tests.antt =====
-- Tests of discovery/discovery.go's model, and its theorems at concrete inputs.
use llm_bridge.Discovery.State.{
  Discovery, new_discovery, set_healthy, RawMessage, update_models, update_entries, update_entry,
  store_filtered, add_advertised, advertise, servers_for_model, request_failed, decoded, Visit,
  discover, discover_from, visit_server, visit_reply, take_reply, note_models, note_model,
}
use llm_bridge.Discovery.Update.{mem, lookup-update_models}
use llm_bridge.Discovery.Replies.{visit_reply-serves}
use llm_bridge.Discovery.Aligned.{IsAligned}
use llm_bridge.Base.{
  ℕ, zero, suc, String, ◌≡◌, refl, true, Option, none, some, [], ◌∷◌, lookup, insert, erase,
  UniqueKeys,
}

unfoldable pub discovery_model : Unit {0}
unfolding discover discover_from visit_server visit_reply take_reply note_models note_model
    update_models update_entries update_entry store_filtered add_advertised advertise set_healthy
    servers_for_model lookup insert erase
discovery_model = tt

-- The metadata of a model are its name here.
abbrev name_of : RawMessage → Option String
name_of raw = some raw

abbrev two_servers : Discovery
two_servers = record new_discovery { servers = "http://a" ∷ "http://b" ∷ [] }

abbrev both_answer : ℕ → Visit
both_answer zero = record { context = none; reply = decoded ("smart" ∷ "fast" ∷ []) }
both_answer (suc i) = record { context = none; reply = decoded ("smart" ∷ "" ∷ []) }

abbrev second_fails : ℕ → Visit
second_fails zero = record { context = none; reply = decoded ("fast" ∷ []) }
second_fails (suc i) = record { context = none; reply = request_failed }

abbrev known : Discovery
known = (discover name_of none both_answer two_servers).0

discover_tests :
    (servers_for_model "smart" known ≡ "http://a" ∷ "http://b" ∷ [])
    × (servers_for_model "fast" known ≡ "http://a" ∷ [])
    × (servers_for_model "smart" (discover name_of none second_fails known).0 ≡ [])
unfolding discovery_model
discover_tests = (refl, refl, refl)

known-UniqueKeys : UniqueKeys known.models
unfolding discovery_model
known-UniqueKeys = (refl, (refl, tt))

lookup-update_models_example :
    lookup "smart" (update_models "http://a" ("fast" ∷ []) known).models ≡ some ("http://b" ∷ [])
unfolding discovery_model
lookup-update_models_example =
    lookup-update_models "http://a" ("fast" ∷ []) known "smart" known-UniqueKeys

visit_reply-serves_example :
    mem "http://b"
      (servers_for_model "fast" (visit_reply name_of "http://b" (decoded ("fast" ∷ [])) known).0)
    ≡ true
visit_reply-serves_example =
    visit_reply-serves name_of "http://b" "http://b" "fast" (decoded ("fast" ∷ [])) known
      known-UniqueKeys

two_servers-IsAligned : IsAligned two_servers
unfolding lookup
two_servers-IsAligned = record { unique = tt; same_keys = λ m. refl; served = λ m e. cc }
