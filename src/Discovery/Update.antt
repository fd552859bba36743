-- ===== src/Discovery/Update.antt =====
-- `updateModels` (discovery/discovery.go) against a description of the map that it leaves.
use llm_bridge.Discovery.State.{
  Discovery, RawMessage, Book, advertise, filtered, or_false, store_filtered, update_entry,
  update_entries, add_advertised, update_models,
}
use llm_bridge.Base.{
  String, ◌≡◌, refl, ap, subst, inl, inr, Bool, true, Option, none, some, List, [], ◌∷◌, arith,
  str_eq, str_eq-cases, if◌then◌else◌, is_some, any, Dict, lookup, insert, lookup-insert,
  lookup-erase, UniqueKeys,
}

-- The entry of a model after the server has advertised it, or not.
abbrev pub entry_of : List String → Option (List String)
entry_of [] = none
entry_of (s ∷ ss) = some (s ∷ ss)

abbrev pub entry_after : String → Bool → Option (List String) → Option (List String)
entry_after url advertised none = if advertised then some (url ∷ []) else none
entry_after url advertised (some urls) = entry_of (filtered url advertised urls)

-- The metadata go when the model goes.
abbrev pub details_after :
    Option (List String) → Option (List String) → Option RawMessage → Option RawMessage
details_after none after old = old
details_after (some _) none old = none
details_after (some _) (some _) old = old

abbrev pub mem : String → List String → Bool
mem id ids = any (λ j. str_eq j id) ids

or_false-advertise :
    (id : String) (ids : List String) → or_false (lookup id (advertise ids)) ≡ mem id ids
unfolding advertise lookup
or_false-advertise id [] = refl
or_false-advertise id (j ∷ ids) =
    ground (arith, lookup-insert j id true (advertise ids), or_false-advertise id ids)

update_entry-models :
    (url k : String) (urls : List String) (b : Book) (m : String)
    → lookup m (update_entry url k urls b).models ≡ (
        if str_eq k m
        then entry_of (filtered url (or_false (lookup k b.advertised)) urls)
        else lookup m b.models)
unfolding update_entry store_filtered
update_entry-models url k urls b m = go (filtered url (or_false (lookup k b.advertised)) urls)
  where
    go :
        (ss : List String)
        → lookup m (store_filtered k ss b).models
          ≡ (if str_eq k m then entry_of ss else lookup m b.models)
    go [] = lookup-erase k m b.models
    go (s ∷ ss) = lookup-insert k m (s ∷ ss) b.models

-- What a book shows of one model.
abbrev pub entry_details : Option (List String) → Option RawMessage → Option RawMessage
entry_details none old = none
entry_details (some _) old = old

update_entry-model_details :
    (url k : String) (urls : List String) (b : Book) (m : String)
    → lookup m (update_entry url k urls b).model_details ≡ (
        if str_eq k m
        then entry_details
            (entry_of (filtered url (or_false (lookup k b.advertised)) urls))
            (lookup m b.model_details)
        else lookup m b.model_details)
unfolding update_entry store_filtered
update_entry-model_details url k urls b m =
    go (filtered url (or_false (lookup k b.advertised)) urls)
  where
    go :
        (ss : List String)
        → lookup m (store_filtered k ss b).model_details ≡ (
            if str_eq k m
            then entry_details (entry_of ss) (lookup m b.model_details)
            else lookup m b.model_details)
    go [] = lookup-erase k m b.model_details
    go (s ∷ ss) = ground arith

update_entry-advertised :
    (url k : String) (urls : List String) (b : Book) (m : String)
    → lookup m (update_entry url k urls b).advertised
      ≡ (if str_eq k m then none else lookup m b.advertised)
unfolding update_entry
update_entry-advertised url k urls b m = lookup-erase k m b.advertised

abbrev changed :
    String → Option Bool → Option (List String) → Option (List String) → Option (List String)
changed url adv none old = old
changed url adv (some urls) old = entry_of (filtered url (or_false adv) urls)

update_entries-models :
    (url m : String) (es : Dict (List String)) (b : Book)
    → UniqueKeys es
    → lookup m (update_entries url es b).models
      ≡ changed url (lookup m b.advertised) (lookup m es) (lookup m b.models)
unfolding update_entries lookup
update_entries-models url m [] b u = refl
update_entries-models url m ((k, urls) ∷ es) b u =
    let b' = update_entry url k urls b in
    let ih = update_entries-models url m es b' u.1 in
    elim (str_eq-cases k m) [
      | inl (t, e) ↦
          (let gone = subst (λ i. lookup i es ≡ none) e u.0 in
            let adv = ap (λ i. lookup i b.advertised) e in
            ground (arith, ih, gone, t, adv, update_entry-models url k urls b m))
      | inr (t, e) ↦
          ground (
            arith,
            ih,
            t,
            update_entry-models url k urls b m,
            update_entry-advertised url k urls b m,
          )
    ]

abbrev kept_details :
    String → Option Bool → Option (List String) → Option RawMessage → Option RawMessage
kept_details url adv none old = old
kept_details url adv (some urls) old =
    entry_details (entry_of (filtered url (or_false adv) urls)) old

update_entries-model_details :
    (url m : String) (es : Dict (List String)) (b : Book)
    → UniqueKeys es
    → lookup m (update_entries url es b).model_details
      ≡ kept_details url (lookup m b.advertised) (lookup m es) (lookup m b.model_details)
unfolding update_entries lookup
update_entries-model_details url m [] b u = refl
update_entries-model_details url m ((k, urls) ∷ es) b u =
    let b' = update_entry url k urls b in
    let ih = update_entries-model_details url m es b' u.1 in
    elim (str_eq-cases k m) [
      | inl (t, e) ↦
          let gone = subst (λ i. lookup i es ≡ none) e u.0 in
          let adv = ap (λ i. lookup i b.advertised) e in
          ground (arith, ih, gone, t, adv, update_entry-model_details url k urls b m)
      | inr (t, e) ↦ ground (
        arith,
        ih,
        t,
        update_entry-model_details url k urls b m,
        update_entry-advertised url k urls b m,
      )
    ]

abbrev left_over : Option Bool → Option (List String) → Option Bool
left_over adv none = adv
left_over adv (some _) = none

update_entries-advertised :
    (url m : String) (es : Dict (List String)) (b : Book)
    → lookup m (update_entries url es b).advertised
      ≡ left_over (lookup m b.advertised) (lookup m es)
unfolding update_entries lookup
update_entries-advertised url m [] b = refl
update_entries-advertised url m ((k, urls) ∷ es) b = ground (
  arith,
  update_entries-advertised url m es (update_entry url k urls b),
  update_entry-advertised url k urls b m,
)

lookup-add_advertised :
    (url m : String) (adv : Dict Bool) (models : Dict (List String))
    → lookup m (add_advertised url adv models)
      ≡ (if is_some (lookup m adv) then some (url ∷ []) else lookup m models)
unfolding add_advertised lookup
lookup-add_advertised url m [] models = refl
lookup-add_advertised url m ((id, x) ∷ rest) models = ground (
  arith,
  lookup-add_advertised url m rest (insert id (url ∷ []) models),
  lookup-insert id m (url ∷ []) models,
)

-- `advertised` holds nothing but `true`.
is_some-advertise :
    (id : String) (ids : List String) → is_some (lookup id (advertise ids)) ≡ mem id ids
unfolding advertise lookup
is_some-advertise id [] = refl
is_some-advertise id (j ∷ ids) =
    ground (arith, lookup-insert j id true (advertise ids), is_some-advertise id ids)

abbrev pub first_book : List String → Discovery → Book
first_book ids d = record {
  models = d.models;
  model_details = d.model_details;
  advertised = advertise ids;
}

-- After a server has said which models it has, the entry of every model is: without this server, the
-- servers that it had before, in order; then this server, if it advertised the model. A model with
-- no server left has no entry. So the order in which `range` visits the map does not matter. The
-- premise is that of a map: the models have one entry each.
pub lookup-update_models :
    (url : String) (ids : List String) (d : Discovery) (m : String)
    → UniqueKeys d.models
    → lookup m (update_models url ids d).models ≡ entry_after url (mem m ids) (lookup m d.models)
unfolding update_models
lookup-update_models url ids d m u =
    let b = first_book ids d in
    ground (
      arith,
      lookup-add_advertised url m (update_entries url d.models b).advertised
          (update_entries url d.models b).models,
      update_entries-models url m d.models b u,
      update_entries-advertised url m d.models b,
      or_false-advertise m ids,
      is_some-advertise m ids,
    )

-- The metadata of a model go exactly when its last server goes, where the models have one entry
-- each.
pub lookup-update_models_details :
    (url : String) (ids : List String) (d : Discovery) (m : String)
    → UniqueKeys d.models
    → lookup m (update_models url ids d).model_details
      ≡ details_after
          (lookup m d.models)
          (lookup m (update_models url ids d).models)
          (lookup m d.model_details)
unfolding update_models
lookup-update_models_details url ids d m u =
    let b = first_book ids d in
    ground (
      arith,
      lookup-add_advertised url m (update_entries url d.models b).advertised
          (update_entries url d.models b).models,
      update_entries-models url m d.models b u,
      update_entries-model_details url m d.models b u,
      update_entries-advertised url m d.models b,
      or_false-advertise m ids,
      is_some-advertise m ids,
    )

pub healthy-update_models :
    (url : String) (ids : List String) (d : Discovery)
    → (update_models url ids d).healthy ≡ d.healthy
unfolding update_models
healthy-update_models url ids d = refl
