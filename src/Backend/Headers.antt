-- ===== src/Backend/Headers.antt =====
-- The headers of a request and of a response, as backend/backend.go and server/server.go copy them. The
-- keys are the canonical ones, as net/http reads them, so `Add` and `Set` leave them as they are.
use llm_bridge.Base.{
  String, ◌≡◌, refl, ap, subst, ◌∙◌, inl, inr, false, Option, none, some, List, [], ◌∷◌, ◌++◌,
  append_assoc, str_eq, str_eq-cases, str_eq_self, if◌then◌else◌, Dict, lookup, insert,
  lookup-insert, UniqueKeys,
}

abbrev pub values_of : Option (List String) → List String
values_of none = []
values_of (some vals) = vals

-- `Header.Set` and `Header.Add`.
unfoldable pub set_header : String → String → Dict (List String) → Dict (List String)
set_header key v h = insert key (v ∷ []) h

unfoldable pub add_header : String → String → Dict (List String) → Dict (List String)
add_header key v h = insert key (values_of (lookup key h) ++ v ∷ []) h

-- The loop over the values of one key.
unfoldable pub add_values : String → List String → Dict (List String) → Dict (List String)
unfolding add_header
add_values key [] h = h
add_values key (v ∷ vals) h = add_values key vals (add_header key v h)

-- The loop over the keys.
unfoldable pub copy_headers : Dict (List String) → Dict (List String) → Dict (List String)
unfolding add_values
copy_headers [] h = h
copy_headers ((key, vals) ∷ headers) h = copy_headers headers (add_values key vals h)

-- The values of a key once these have been added, if there are any.
abbrev pub joined : Option (List String) → List String → Option (List String)
joined before [] = before
joined before (v ∷ vals) = some (values_of before ++ v ∷ vals)

abbrev pub joined_if : Option (List String) → Option (List String) → Option (List String)
joined_if before none = before
joined_if before (some vals) = joined before vals

lookup-add_header :
    (key v j : String) (h : Dict (List String))
    → lookup j (add_header key v h)
      ≡ (if str_eq key j then some (values_of (lookup key h) ++ v ∷ []) else lookup j h)
unfolding add_header
lookup-add_header key v j h = lookup-insert key j _ h

pub lookup-add_values_self :
    (key : String) (vals : List String) (h : Dict (List String))
    → lookup key (add_values key vals h) ≡ joined (lookup key h) vals
unfolding add_values
lookup-add_values_self key [] h = refl
lookup-add_values_self key (v ∷ []) h = lookup-add_header key v key h ∙ rw (str_eq_self key) refl
lookup-add_values_self key (v ∷ (u ∷ vals)) h =
    let now : lookup key (add_header key v h) ≡ some (values_of (lookup key h) ++ v ∷ []) =
      lookup-add_header key v key h ∙ rw (str_eq_self key) refl in
    lookup-add_values_self key (u ∷ vals) (add_header key v h)
    ∙ ap (λ b. joined b (u ∷ vals)) now
    ∙ ap some (append_assoc (values_of (lookup key h)) (v ∷ []) (u ∷ vals))

pub lookup-add_values_ne :
    (key j : String) (vals : List String) (h : Dict (List String))
    → str_eq key j ≡ false
    → lookup j (add_values key vals h) ≡ lookup j h
unfolding add_values
lookup-add_values_ne key j [] h n = refl
lookup-add_values_ne key j (v ∷ vals) h n =
    lookup-add_values_ne key j vals (add_header key v h) n ∙ lookup-add_header key v j h ∙ rw n refl

-- What a key holds once headers have been copied onto others: its values come after those that
-- were there.
pub lookup-copy_headers :
    (headers h : Dict (List String)) (j : String)
    → UniqueKeys headers
    → lookup j (copy_headers headers h) ≡ joined_if (lookup j h) (lookup j headers)
unfolding copy_headers lookup
lookup-copy_headers [] h j u = refl
lookup-copy_headers ((key, vals) ∷ headers) h j (new, u) = elim (str_eq-cases key j) [
  | inl (t, e) ↦
      let gone : lookup j headers ≡ none = subst (λ k. lookup k headers ≡ none) e new in
      let first : lookup j (add_values key vals h) ≡ joined (lookup j h) vals =
        subst (λ k. lookup k (add_values key vals h) ≡ joined (lookup k h) vals) e
          (lookup-add_values_self key vals h) in
      lookup-copy_headers headers (add_values key vals h) j u ∙ rw (gone, first, t) refl
  | inr (t, e) ↦
      lookup-copy_headers headers (add_values key vals h) j u
      ∙ rw (lookup-add_values_ne key j vals h t, t) refl
]
