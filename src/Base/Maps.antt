-- ===== src/Base/Maps.antt =====
-- Go's maps with text keys: association lists, with the laws of a map in `if` form. A key that is
-- not there reads as `none`.
use Prim.Native.String.{String}
use mathlib.Core.Path.{◌≡◌, refl, sym, subst, ◌∙◌}
use mathlib.Core.Logic.{◌≢◌, inl, inr}
use mathlib.Core.Option.{Option, none, some}
use mathlib.Core.List.{List, [], ◌∷◌, map}
use native.Mathlib.Omega.{arith}
use text.Mathlib.Text.{◌==◌ as str_eq}
use text.Mathlib.TextEquality.{eq_iff}
use llm_bridge.Base.Tests.{if◌then◌else◌, str_eq_self, str_eq-cases}

abbrev pub Dict {ℓ} : Type ℓ → Type ℓ
Dict V = List (String × V)

module _ {ℓ} {V : Type ℓ} where
  unfoldable pub lookup : String → Dict V → Option V
  lookup key [] = none
  lookup key ((other, value) ∷ entries) =
      if str_eq other key then some value else lookup key entries

  unfoldable pub insert : String → V → Dict V → Dict V
  insert key value [] = (key, value) ∷ []
  insert key value ((other, old) ∷ entries) =
      if str_eq other key then (key, value) ∷ entries else (other, old) ∷ insert key value entries

  unfoldable pub erase : String → Dict V → Dict V
  erase key [] = []
  erase key ((other, old) ∷ entries) =
      if str_eq other key then erase key entries else (other, old) ∷ erase key entries

  abbrev pub keys : Dict V → List String
  keys entries = map (λ e. e.0) entries

  pub lookup-insert :
      (key other : String) (value : V) (entries : Dict V)
      → lookup other (insert key value entries)
        ≡ (if str_eq key other then some value else lookup other entries)
  unfolding lookup insert
  lookup-insert key other value [] = refl
  lookup-insert key other value ((here, old) ∷ entries) = ground (
    arith,
    eq_iff key other,
    eq_iff here key,
    eq_iff here other,
    lookup-insert key other value entries,
  )

  pub lookup-erase :
      (key other : String) (entries : Dict V)
      → lookup other (erase key entries) ≡ (if str_eq key other then none else lookup other entries)
  unfolding lookup erase
  lookup-erase key other [] = ground arith
  lookup-erase key other ((here, old) ∷ entries) =
      ground (
        arith,
        eq_iff key other,
        eq_iff here key,
        eq_iff here other,
        lookup-erase key other entries,
      )

  pub lookup-insert_self :
      (key : String) (value : V) (entries : Dict V)
      → lookup key (insert key value entries) ≡ some value
  lookup-insert_self key value entries = simp (lookup-insert, str_eq_self)

  pub lookup-insert_ne :
      (key other : String) (value : V) (entries : Dict V)
      → key ≢ other
      → lookup other (insert key value entries) ≡ lookup other entries
  lookup-insert_ne key other value entries h =
      ground (arith, lookup-insert key other value entries, eq_iff key other)

  pub lookup-erase_self : (key : String) (entries : Dict V) → lookup key (erase key entries) ≡ none
  lookup-erase_self key entries = simp (lookup-erase, str_eq_self)

-- No key stands twice, as in every dictionary that stands for a map.
module _ {ℓ} {V : Type ℓ} where
  abbrev pub UniqueKeys : Dict V → Type ℓ
  UniqueKeys [] = Unit
  UniqueKeys ((key, value) ∷ entries) = (lookup key entries ≡ none) × UniqueKeys entries

  pub insert-UniqueKeys :
      (key : String) (value : V) (entries : Dict V)
      → UniqueKeys entries
      → UniqueKeys (insert key value entries)
  unfolding insert lookup
  insert-UniqueKeys key value [] u = (refl, tt)
  insert-UniqueKeys key value ((other, old) ∷ entries) u = elim (str_eq-cases other key) [
    | inl (t, e) ↦ rw t (subst (λ here. lookup here entries ≡ none) e u.0, u.1)
    | inr (t, e) ↦ rw t (
      lookup-insert_ne key other value entries (λ h. e (sym h)) ∙ u.0,
      insert-UniqueKeys key value entries u.1,
    )
  ]

  pub erase-UniqueKeys :
      (key : String) (entries : Dict V) → UniqueKeys entries → UniqueKeys (erase key entries)
  unfolding erase
  erase-UniqueKeys key [] u = u
  erase-UniqueKeys key ((other, old) ∷ entries) u = elim (str_eq-cases other key) [
    | inl (t, e) ↦ rw t (erase-UniqueKeys key entries u.1)
    | inr (t, e) ↦
        rw t (ground (arith, lookup-erase key other entries, u.0), erase-UniqueKeys key entries u.1)
  ]
