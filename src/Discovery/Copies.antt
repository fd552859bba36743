-- ===== src/Discovery/Copies.antt =====
-- discovery/discovery.go: `Models`, `ModelDetails` and `Healthy`, which copy a map while they hold the
-- lock. A slice or a text that is copied with it is the same value.
use llm_bridge.Discovery.State.{Discovery, RawMessage}
use llm_bridge.Base.{
  String, ◌≡◌, ◌≢◌, append-nil, refl, sym, ap, subst, ◌∙◌, inl, inr, Bool, none, List, [], ◌∷◌,
  ◌++◌, append_assoc, str_eq-cases, str_eq_self, Dict, lookup, insert, UniqueKeys,
}

module _ {ℓ} {V : Type ℓ} where
  -- The loop of the three.
  unfoldable pub copy_entries : Dict V → Dict V → Dict V
  copy_entries [] result = result
  copy_entries ((key, value) ∷ entries) result = copy_entries entries (insert key value result)

unfoldable pub all_models : Discovery → Dict (List String)
all_models d = copy_entries d.models []

unfoldable pub all_model_details : Discovery → Dict RawMessage
all_model_details d = copy_entries d.model_details []

unfoldable pub all_healthy : Discovery → Dict Bool
all_healthy d = copy_entries d.healthy []

module _ {ℓ} {V : Type ℓ} where
  lookup-middle :
      (key : String) (value : V) (before after : Dict V)
      → lookup key (before ++ (key, value) ∷ after) ≢ none
  unfolding lookup
  lookup-middle key value [] after e = absurd (cc (rw (str_eq_self key) at e))
  lookup-middle key value ((other, old) ∷ before) after e = elim (str_eq-cases other key) [
    | inl (t, k) ↦ absurd (cc (rw t at e))
    | inr (t, k) ↦ lookup-middle key value before after (rw t at e)
  ]

  insert-new :
      (key : String) (value : V) (before after : Dict V)
      → UniqueKeys (before ++ (key, value) ∷ after)
      → insert key value before ≡ before ++ (key, value) ∷ []
  unfolding insert
  insert-new key value [] after u = refl
  insert-new key value ((other, old) ∷ before) after (new, u) = elim (str_eq-cases other key) [
    | inl (t, e) ↦ absurd (
        lookup-middle key value before after
          (subst (λ k. lookup k (before ++ (key, value) ∷ after) ≡ none) e new))
    | inr (t, e) ↦ rw (t, insert-new key value before after u)
  ]

  copy_entries-append :
      (entries before : Dict V)
      → UniqueKeys (before ++ entries)
      → copy_entries entries before ≡ before ++ entries
  unfolding copy_entries
  copy_entries-append [] before u = sym (append-nil before)
  copy_entries-append ((key, value) ∷ entries) before u =
      let same : insert key value before ≡ before ++ (key, value) ∷ [] =
        insert-new key value before entries u in
      let shape : (before ++ (key, value) ∷ []) ++ entries ≡ before ++ (key, value) ∷ entries =
        append_assoc before ((key, value) ∷ []) entries in
      ap (copy_entries entries) same
      ∙ copy_entries-append entries (before ++ (key, value) ∷ []) (subst UniqueKeys (sym shape) u)
      ∙ shape

  -- A copy of a map is the map.
  pub copy_entries-UniqueKeys :
      (entries : Dict V) → UniqueKeys entries → copy_entries entries [] ≡ entries
  copy_entries-UniqueKeys entries u = copy_entries-append entries [] u
