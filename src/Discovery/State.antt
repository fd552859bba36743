-- ===== src/Discovery/State.antt =====
-- discovery/discovery.go: the state of `Discovery` and its operations.
use llm_bridge.Backend.Pool.{ContextError, Context}
use llm_bridge.Base.{
  ℕ, ◌+◌, String, Bool, true, false, not, Option, none, some, List, [], ◌∷◌, ◌++◌, str_eq,
  if◌then◌else◌, filter, Dict, lookup, insert, erase,
}

-- `json.RawMessage`, opaque to this package but for the id that it holds.
abbrev pub RawMessage : Type 0
RawMessage = String

pub record Discovery : Type 0 where
  pub servers : List String
  pub models : Dict (List String)
  pub model_details : Dict RawMessage
  pub healthy : Dict Bool

abbrev pub new_discovery : Discovery
new_discovery = record { servers = []; models = []; model_details = []; healthy = [] }

unfoldable pub set_servers : List String → Discovery → Discovery
set_servers urls d = record d { servers = urls }

unfoldable pub set_healthy : String → Bool → Discovery → Discovery
set_healthy url b d = record d { healthy = insert url b d.healthy }

-- A missing key reads as Go's zero value.
abbrev pub or_false : Option Bool → Bool
or_false none = false
or_false (some b) = b

abbrev pub or_empty : Option (List String) → List String
or_empty none = []
or_empty (some urls) = urls

unfoldable pub is_healthy : String → Discovery → Bool
is_healthy url d = or_false (lookup url d.healthy)

unfoldable pub servers_for_model : String → Discovery → List String
servers_for_model model d =
    filter (λ url. or_false (lookup url d.healthy)) (or_empty (lookup model d.models))

-- The variables of `updateModels` while it ranges over the models.
pub record Book : Type 0 where
  pub models : Dict (List String)
  pub model_details : Dict RawMessage
  pub advertised : Dict Bool

unfoldable pub advertise : List String → Dict Bool
advertise [] = []
advertise (id ∷ ids) = insert id true (advertise ids)

abbrev pub others : String → List String → List String
others url urls = filter (λ s. not (str_eq s url)) urls

-- The servers of a model after a server with this URL has said whether it has it.
abbrev pub filtered : String → Bool → List String → List String
filtered url advertised urls = if advertised then others url urls ++ url ∷ [] else others url urls

unfoldable pub store_filtered : String → List String → Book → Book
store_filtered model [] b = record b {
  models = erase model b.models;
  model_details = erase model b.model_details;
}
store_filtered model (s ∷ ss) b = record b { models = insert model (s ∷ ss) b.models }

-- One round of the loop over the models.
unfoldable pub update_entry : String → String → List String → Book → Book
unfolding store_filtered
update_entry url model urls b =
    let b' = store_filtered model (filtered url (or_false (lookup model b.advertised)) urls) b in
    record b' { advertised = erase model b.advertised }

unfoldable pub update_entries : String → Dict (List String) → Book → Book
update_entries url [] b = b
update_entries url ((model, urls) ∷ es) b = update_entries url es (update_entry url model urls b)

-- The loop over what is left in `advertised`.
unfoldable pub add_advertised : String → Dict Bool → Dict (List String) → Dict (List String)
add_advertised url [] models = models
add_advertised url ((id, _) ∷ rest) models = add_advertised url rest (insert id (url ∷ []) models)

unfoldable pub update_models : String → List String → Discovery → Discovery
unfolding update_entries update_entry add_advertised advertise
update_models url model_ids d =
    let b = update_entries url d.models (record {
      models = d.models;
      model_details = d.model_details;
      advertised = advertise model_ids;
    }) in
    record d { models = add_advertised url b.advertised b.models; model_details = b.model_details }

-- What the exchange with a server came to.
pub data Reply : Type 0 where
  request_failed decode_failed : Reply
  do_failed : Context → Reply
  decoded : List RawMessage → Reply

-- The context as it is before a server is visited, and the reply.
pub record Visit : Type 0 where
  pub context : Context
  pub reply : Reply

abbrev pub add_if_absent :
    String → RawMessage → Option RawMessage → Dict RawMessage → Dict RawMessage
add_if_absent id raw none details = insert id raw details
add_if_absent id raw (some _) details = details

-- `json.Unmarshal` of the metadata: `none` on an error, else the id, "" if there is none.
module _ (model_id : RawMessage → Option String) where
  -- One round of the loop over the models of a reply.
  unfoldable pub note_model :
      RawMessage → List String × Dict RawMessage → List String × Dict RawMessage
  note_model raw (ids, details) = elim (model_id raw) [
    | none ↦ (ids, details)
    | some id ↦
        if str_eq id ""
        then (ids, details)
        else (ids ++ id ∷ [], add_if_absent id raw (lookup id details) details)
  ]

  unfoldable pub note_models :
      List RawMessage → List String × Dict RawMessage → List String × Dict RawMessage
  note_models [] acc = acc
  note_models (raw ∷ raws) acc = note_models raws (note_model raw acc)

  -- What a decoded reply does.
  unfoldable pub take_reply : String → List RawMessage → Discovery → Discovery
  unfolding note_models note_model
  take_reply url raws d =
      let (ids, details) = note_models raws ([], d.model_details) in
      set_healthy url true (update_models url ids (record d { model_details = details }))

  unfoldable pub visit_reply : String → Reply → Discovery → Discovery × Option ContextError
  visit_reply url request_failed d = (set_healthy url false d, none)
  visit_reply url (do_failed ctx) d = (set_healthy url false d, ctx)
  visit_reply url decode_failed d = (set_healthy url false d, none)
  visit_reply url (decoded raws) d = (take_reply url raws d, none)

  -- One round of the loop over the servers.
  unfoldable pub visit_server :
      String → Context → Reply → Discovery → Discovery × Option ContextError
  unfolding visit_reply
  visit_server url none reply d = visit_reply url reply d
  visit_server url (some e) reply d = (d, some e)

  unfoldable pub discover_from :
      List String → ℕ → (ℕ → Visit) → Discovery → Discovery × Option ContextError
  discover_from [] i visits d = (d, none)
  discover_from (url ∷ urls) i visits d =
      let r = visit_server url (visits i).context (visits i).reply d in
      elim r.1 [ none ↦ discover_from urls (i + 1) visits r.0 | some e ↦ (r.0, some e) ]

  -- `Discover`: the context at its start, and the visits in the order of the servers.
  unfoldable pub discover : Context → (ℕ → Visit) → Discovery → Discovery × Option ContextError
  unfolding discover_from
  discover none visits d = discover_from d.servers 0 visits d
  discover (some e) visits d = (d, some e)
