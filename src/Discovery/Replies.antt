-- ===== src/Discovery/Replies.antt =====
-- What one reply does to the routing table of discovery/discovery.go.
use llm_bridge.Discovery.State.{
  Discovery, RawMessage, others, filtered, or_false, or_empty, set_healthy, servers_for_model,
  add_if_absent, note_model, note_models, take_reply, Reply, request_failed, decode_failed,
  do_failed, decoded, visit_reply,
}
use llm_bridge.Discovery.Update.{
  mem, entry_of, entry_after, lookup-update_models, healthy-update_models,
}
use llm_bridge.Base.{
  String, ◌≡◌, refl, ap, ◌∙◌, inl, inr, Bool, true, false, not, ◌&&◌, ◌||◌, Option, none, some,
  List, [], ◌∷◌, ◌++◌, arith, eq_iff, str_eq, str_eq-cases, if◌then◌else◌, Option-cases, is_some,
  filter, any, Dict, lookup, lookup-insert, UniqueKeys,
}

-- Whether a list of metadata has an entry with this id. An id is not empty.
abbrev pub names : (RawMessage → Option String) → String → RawMessage → Bool
names model_id id raw = elim (model_id raw) [
  | none ↦ false
  | some j ↦ if str_eq j "" then false else str_eq j id
]

abbrev pub lists : (RawMessage → Option String) → String → List RawMessage → Bool
lists model_id id raws = any (names model_id id) raws

mem-append : (id : String) (xs ys : List String) → mem id (xs ++ ys) ≡ (mem id xs || mem id ys)
mem-append id [] ys = refl
mem-append id (x ∷ xs) ys = ground (arith, mem-append id xs ys)

mem-others :
    (id url : String) (urls : List String)
    → mem id (others url urls) ≡ (not (str_eq url id) && mem id urls)
mem-others id url [] = ground arith
mem-others id url (s ∷ ss) =
    ground (arith, mem-others id url ss, eq_iff s url, eq_iff s id, eq_iff url id)

mem-filter :
    (p : String → Bool) (id : String) (urls : List String)
    → mem id (filter p urls) ≡ (p id && mem id urls)
mem-filter p id [] = ground arith
mem-filter p id (s ∷ ss) = elim (str_eq-cases s id) [
  | inl (t, e) ↦ ground (arith, t, mem-filter p id ss, ap p e)
  | inr (t, e) ↦ ground (arith, t, mem-filter p id ss)
]

mem-entry_of : (id : String) (urls : List String) → mem id (or_empty (entry_of urls)) ≡ mem id urls
mem-entry_of id [] = refl
mem-entry_of id (s ∷ ss) = refl

mem-entry_after :
    (url j : String) (adv : Bool) (o : Option (List String))
    → mem j (or_empty (entry_after url adv o)) ≡ (if str_eq url j then adv else mem j (or_empty o))
mem-entry_after url j true none = ground arith
mem-entry_after url j false none = ground arith
mem-entry_after url j true (some urls) =
    mem-entry_of j (filtered url true urls)
    ∙ ground (arith, mem-append j (others url urls) (url ∷ []), mem-others j url urls)
mem-entry_after url j false (some urls) =
    mem-entry_of j (filtered url false urls) ∙ ground (arith, mem-others j url urls)

mem-servers_for_model :
    (j m : String) (d : Discovery)
    → mem j (servers_for_model m d)
      ≡ (or_false (lookup j d.healthy) && mem j (or_empty (lookup m d.models)))
unfolding servers_for_model
mem-servers_for_model j m d = mem-filter (λ url. or_false (lookup url d.healthy)) j _

is_some-add_if_absent :
    (j id : String) (raw : RawMessage) (details : Dict RawMessage)
    → is_some (lookup id (add_if_absent j raw (lookup j details) details))
      ≡ (is_some (lookup id details) || str_eq j id)
is_some-add_if_absent j id raw details = ground (arith, lookup-insert j id raw details, eq_iff j id)

module _ (model_id : RawMessage → Option String) where
  note_model-ids :
      (id : String) (raw : RawMessage) (acc : List String × Dict RawMessage)
      → mem id (note_model model_id raw acc).0 ≡ (mem id acc.0 || names model_id id raw)
  unfolding note_model
  note_model-ids id raw (ids, details) = elim (Option-cases (model_id raw)) [
    | inl e ↦ ground (arith, e)
    | inr (j, e) ↦ ground (arith, e, mem-append id ids (j ∷ []))
  ]

  note_models-ids :
      (id : String) (raws : List RawMessage) (acc : List String × Dict RawMessage)
      → mem id (note_models model_id raws acc).0 ≡ (mem id acc.0 || lists model_id id raws)
  unfolding note_models
  note_models-ids id [] acc = ground arith
  note_models-ids id (raw ∷ raws) acc =
      ground
        (arith, note_models-ids id raws (note_model model_id raw acc), note_model-ids id raw acc)

  note_model-details :
      (id : String) (raw : RawMessage) (acc : List String × Dict RawMessage)
      → is_some (lookup id (note_model model_id raw acc).1)
        ≡ (is_some (lookup id acc.1) || names model_id id raw)
  unfolding note_model
  note_model-details id raw (ids, details) = elim (Option-cases (model_id raw)) [
    | inl e ↦ ground (arith, e)
    | inr (j, e) ↦ ground (arith, e, is_some-add_if_absent j id raw details)
  ]

  note_models-details :
      (id : String) (raws : List RawMessage) (acc : List String × Dict RawMessage)
      → is_some (lookup id (note_models model_id raws acc).1)
        ≡ (is_some (lookup id acc.1) || lists model_id id raws)
  unfolding note_models
  note_models-details id [] acc = ground arith
  note_models-details id (raw ∷ raws) acc = ground (
    arith,
    note_models-details id raws (note_model model_id raw acc),
    note_model-details id raw acc,
  )

  -- The metadata of the models of a reply are there, with those that were there before.
  pub note_models-lookup :
      (id : String) (raws : List RawMessage) (details : Dict RawMessage)
      → is_some (lookup id (note_models model_id raws ([], details)).1)
        ≡ (is_some (lookup id details) || lists model_id id raws)
  note_models-lookup id raws details = note_models-details id raws ([], details)

  pub mem-note_models :
      (id : String) (raws : List RawMessage) (details : Dict RawMessage)
      → mem id (note_models model_id raws ([], details)).0 ≡ lists model_id id raws
  mem-note_models id raws details = note_models-ids id raws ([], details)

  take_reply-serves :
      (url j m : String) (raws : List RawMessage) (d : Discovery)
      → UniqueKeys d.models
      → mem j (servers_for_model m (take_reply model_id url raws d))
        ≡ (if str_eq url j then lists model_id m raws else mem j (servers_for_model m d))
  unfolding take_reply set_healthy
  take_reply-serves url j m raws d u =
      let acc = note_models model_id raws ([], d.model_details) in
      let d' = record d { model_details = acc.1 } in
      ground (
        arith,
        mem-servers_for_model j m (take_reply model_id url raws d),
        mem-servers_for_model j m d,
        lookup-insert url j true d.healthy,
        ap (λ o. mem j (or_empty o)) (lookup-update_models url acc.0 d' m u),
        mem-entry_after url j (mem m acc.0) (lookup m d.models),
        mem-note_models m raws d.model_details,
        healthy-update_models url acc.0 d',
      )

failed-serves :
    (url j m : String) (d : Discovery)
    → mem j (servers_for_model m (set_healthy url false d))
      ≡ (if str_eq url j then false else mem j (servers_for_model m d))
unfolding set_healthy
failed-serves url j m d = ground (
  arith,
  mem-servers_for_model j m (set_healthy url false d),
  mem-servers_for_model j m d,
  lookup-insert url j false d.healthy,
)

-- The models that a server offers, by what it replied: none if the exchange failed.
abbrev pub offers : (RawMessage → Option String) → String → Reply → Bool
offers model_id m request_failed = false
offers model_id m (do_failed ctx) = false
offers model_id m decode_failed = false
offers model_id m (decoded raws) = lists model_id m raws

-- Once a server has been visited, requests for a model go to it exactly if its reply lists the model,
-- and to every other server as before; a server whose exchange has failed gets none. The premise is
-- that of a map: the models have one entry each.
pub visit_reply-serves :
    (model_id : RawMessage → Option String) (url j m : String) (reply : Reply) (d : Discovery)
    → UniqueKeys d.models
    → mem j (servers_for_model m (visit_reply model_id url reply d).0)
      ≡ (if str_eq url j then offers model_id m reply else mem j (servers_for_model m d))
unfolding visit_reply
visit_reply-serves model_id url j m request_failed d u = failed-serves url j m d
visit_reply-serves model_id url j m (do_failed ctx) d u = failed-serves url j m d
visit_reply-serves model_id url j m decode_failed d u = failed-serves url j m d
visit_reply-serves model_id url j m (decoded raws) d u = take_reply-serves model_id url j m raws d u
