-- ===== src/Discovery/Aligned.antt =====
-- The models of discovery/discovery.go and their metadata, between polls.
use llm_bridge.Backend.Pool.{Context}
use llm_bridge.Discovery.State.{
  Discovery, RawMessage, Book, filtered, or_false, store_filtered, update_entry, update_entries,
  add_advertised, update_models, set_healthy, note_models, take_reply, Reply, request_failed,
  decode_failed, do_failed, decoded, Visit, visit_server, discover_from, discover,
}
use llm_bridge.Discovery.Update.{
  mem, entry_of, entry_after, details_after, lookup-update_models, lookup-update_models_details,
  first_book,
}
use llm_bridge.Discovery.Replies.{mem-note_models, note_models-lookup}
use llm_bridge.Base.{
  ℕ, ◌+◌, String, ◌≡◌, refl, sym, ap, ◌∙◌, ◌≢◌, inl, inr, Bool, true, false, ◌||◌, Option, none,
  some, List, [], ◌∷◌, arith, Option-cases, is_some, Dict, lookup, UniqueKeys, insert-UniqueKeys,
  erase-UniqueKeys,
}

pub record IsAligned (d : Discovery) : Type 0 where
  pub unique : UniqueKeys d.models
  pub same_keys : (m : String) → is_some (lookup m d.model_details) ≡ is_some (lookup m d.models)
  pub served : (m : String) → lookup m d.models ≢ some []

store_filtered-UniqueKeys :
    (k : String) (ss : List String) (b : Book)
    → UniqueKeys b.models
    → UniqueKeys (store_filtered k ss b).models
unfolding store_filtered
store_filtered-UniqueKeys k [] b u = erase-UniqueKeys k b.models u
store_filtered-UniqueKeys k (s ∷ ss) b u = insert-UniqueKeys k (s ∷ ss) b.models u

update_entries-UniqueKeys :
    (url : String) (es : Dict (List String)) (b : Book)
    → UniqueKeys b.models
    → UniqueKeys (update_entries url es b).models
unfolding update_entries update_entry
update_entries-UniqueKeys url [] b u = u
update_entries-UniqueKeys url ((k, urls) ∷ es) b u =
    update_entries-UniqueKeys url es (update_entry url k urls b)
      (store_filtered-UniqueKeys k (filtered url (or_false (lookup k b.advertised)) urls) b u)

add_advertised-UniqueKeys :
    (url : String) (adv : Dict Bool) (models : Dict (List String))
    → UniqueKeys models
    → UniqueKeys (add_advertised url adv models)
unfolding add_advertised
add_advertised-UniqueKeys url [] models u = u
add_advertised-UniqueKeys url ((id, _) ∷ rest) models u =
    add_advertised-UniqueKeys url rest _ (insert-UniqueKeys id (url ∷ []) models u)

update_models-UniqueKeys :
    (url : String) (ids : List String) (d : Discovery)
    → UniqueKeys d.models
    → UniqueKeys (update_models url ids d).models
unfolding update_models
update_models-UniqueKeys url ids d u =
    let b = update_entries url d.models (first_book ids d) in
    add_advertised-UniqueKeys url b.advertised b.models
      (update_entries-UniqueKeys url d.models (first_book ids d) u)

entry_after-served :
    (url : String) (adv : Bool) (o : Option (List String)) → entry_after url adv o ≢ some []
entry_after-served url true none = λ e. cc
entry_after-served url false none = λ e. cc
entry_after-served url adv (some urls) = go (filtered url adv urls)
  where
    go : (ss : List String) → entry_of ss ≢ some []
    go [] = λ e. cc
    go (s ∷ ss) = λ e. cc

details_after-some :
    (url : String) (adv : Bool) (o : Option (List String)) (det : Option RawMessage)
    → is_some det ≡ (is_some o || adv)
    → is_some (details_after o (entry_after url adv o) det) ≡ is_some (entry_after url adv o)
details_after-some url true none det h = h
details_after-some url false none det h = h
details_after-some url adv (some urls) det h = go (filtered url adv urls)
  where
    go :
        (ss : List String)
        → is_some (details_after (some urls) (entry_of ss) det) ≡ is_some (entry_of ss)
    go [] = refl
    go (s ∷ ss) = h

module _ (model_id : RawMessage → Option String) where
  take_reply-IsAligned :
      (url : String) (raws : List RawMessage) (d : Discovery)
      → IsAligned d
      → IsAligned (take_reply model_id url raws d)
  unfolding take_reply set_healthy
  take_reply-IsAligned url raws d a =
      let acc = note_models model_id raws ([], d.model_details) in
      let d' = record d { model_details = acc.1 } in
      record {
        unique = update_models-UniqueKeys url acc.0 d' a.unique;
        same_keys = λ m.
            ap is_some (lookup-update_models_details url acc.0 d' m a.unique)
            ∙ rw (lookup-update_models url acc.0 d' m a.unique) (
                details_after-some url (mem m acc.0) (lookup m d.models) (lookup m acc.1) (
                  ground (
                    arith,
                    note_models-lookup model_id m raws d.model_details,
                    mem-note_models model_id m raws d.model_details,
                    a.same_keys m,
                  )));
        served = λ m e.
            entry_after-served url (mem m acc.0) (lookup m d.models)
              (sym (lookup-update_models url acc.0 d' m a.unique) ∙ e);
      }

  set_healthy-IsAligned :
      (url : String) (b : Bool) (d : Discovery) → IsAligned d → IsAligned (set_healthy url b d)
  unfolding set_healthy
  set_healthy-IsAligned url b d a = record {
    unique = a.unique;
    same_keys = a.same_keys;
    served = a.served;
  }

  pub visit_server-IsAligned :
      (url : String) (ctx : Context) (reply : Reply) (d : Discovery)
      → IsAligned d
      → IsAligned (visit_server model_id url ctx reply d).0
  unfolding visit_server
  visit_server-IsAligned url (some e) reply d a = a
  visit_server-IsAligned url none request_failed d a = set_healthy-IsAligned url false d a
  visit_server-IsAligned url none (do_failed ctx) d a = set_healthy-IsAligned url false d a
  visit_server-IsAligned url none decode_failed d a = set_healthy-IsAligned url false d a
  visit_server-IsAligned url none (decoded raws) d a = take_reply-IsAligned url raws d a

  discover_from-IsAligned :
      (urls : List String) (i : ℕ) (visits : ℕ → Visit) (d : Discovery)
      → IsAligned d
      → IsAligned (discover_from model_id urls i visits d).0
  unfolding discover_from
  discover_from-IsAligned [] i visits d a = a
  discover_from-IsAligned (url ∷ urls) i visits d a =
      let r = visit_server model_id url (visits i).context (visits i).reply d in
      let h = visit_server-IsAligned url (visits i).context (visits i).reply d a in
      elim (Option-cases r.1) [
        | inl e ↦ rw (e, discover_from) (discover_from-IsAligned urls (i + 1) visits r.0 h)
        | inr (x, e) ↦ rw (e, discover_from) h
      ]

  -- A poll, whatever the servers answer and wherever it is cut off, keeps the models and their
  -- metadata aligned: they have the same keys, one entry each, and no model is without a server.
  pub discover-IsAligned :
      (ctx : Context) (visits : ℕ → Visit) (d : Discovery)
      → IsAligned d
      → IsAligned (discover model_id ctx visits d).0
  unfolding discover
  discover-IsAligned none visits d a = discover_from-IsAligned d.servers 0 visits d a
  discover-IsAligned (some e) visits d a = a
