-- ===== src/Metrics/Covered.antt =====
-- The entries of metrics/metrics.go's collector, and when a poll panics.
use llm_bridge.Metrics.Collector.{
  Reals, ServerMetrics, no_metrics, Collector, add_entry, add_missing, drop_stale, set_servers,
}
use llm_bridge.Base.{
  String, ◌≡◌, refl, subst, ◌∙◌, inl, inr, Bool, true, false, not, ◌&&◌, Option, none, some, List,
  [], ◌∷◌, arith, str_eq, str_eq-cases, if◌then◌else◌, Bool-cases, Option-cases, is_some, any, Dict,
  lookup, erase, keys, lookup-insert, lookup-erase,
}

abbrev pub mem : String → List String → Bool
mem u urls = any (λ v. str_eq v u) urls

module _ (reals : Reals) where
  abbrev pub or_new : Option (ServerMetrics reals) → ServerMetrics reals
  or_new none = no_metrics reals
  or_new (some m) = m

  lookup-add_entry :
      (u j : String) (m : Dict (ServerMetrics reals))
      → lookup j (add_entry reals u (lookup u m) m)
        ≡ (if str_eq u j then some (or_new (lookup j m)) else lookup j m)
  lookup-add_entry u j m = elim (Option-cases (lookup u m)) [
    | inl e ↦ rw e (
        lookup-insert u j (no_metrics reals) m ∙ elim (str_eq-cases u j) [
          | inl (t, same) ↦
              let missing : lookup j m ≡ none = subst (λ k. lookup k m ≡ none) same e in
              rw (t, missing) refl
          | inr (t, other) ↦ rw t refl
        ])
    | inr (old, e) ↦ rw e (elim (str_eq-cases u j) [
      | inl (t, same) ↦
          let there : lookup j m ≡ some old = subst (λ k. lookup k m ≡ some old) same e in
          rw (t, there) refl
      | inr (t, other) ↦ rw t refl
    ])
  ]

  lookup-add_missing :
      (us : List String) (j : String) (m : Dict (ServerMetrics reals))
      → lookup j (add_missing reals us m)
        ≡ (if mem j us then some (or_new (lookup j m)) else lookup j m)
  unfolding add_missing
  lookup-add_missing [] j m = refl
  lookup-add_missing (u ∷ us) j m =
      let first = lookup-add_entry u j m in
      let rest = lookup-add_missing us j (add_entry reals u (lookup u m) m) in
      elim (Bool-cases (str_eq u j)) [
        | inl t ↦
            let now : lookup j (add_entry reals u (lookup u m) m) ≡ some (or_new (lookup j m)) =
              first ∙ rw t refl in
            rest
            ∙ rw (t, now) (elim (Bool-cases (mem j us)) [ inl e ↦ rw e refl | inr e ↦ rw e refl ])
        | inr t ↦
            let now : lookup j (add_entry reals u (lookup u m) m) ≡ lookup j m =
              first ∙ rw t refl in
            rest ∙ rw (t, now) refl
      ]

  lookup-drop_stale :
      (urls us : List String) (j : String) (m : Dict (ServerMetrics reals))
      → lookup j (drop_stale reals urls us m)
        ≡ (if mem j us && not (mem j urls) then none else lookup j m)
  unfolding drop_stale
  lookup-drop_stale urls [] j m = refl
  lookup-drop_stale urls (u ∷ us) j m = elim (str_eq-cases u j) [
    | inl (t, same) ↦ elim (Bool-cases (mem u urls)) [
      | inl e ↦
          let f : mem j urls ≡ true = subst (λ k. mem k urls ≡ true) same e in
          rw e (lookup-drop_stale urls us j m ∙ rw f (ground arith))
      | inr e ↦
          let f : mem j urls ≡ false = subst (λ k. mem k urls ≡ false) same e in
          let gone : lookup j (erase u m) ≡ none = lookup-erase u j m ∙ rw t refl in
          rw e (lookup-drop_stale urls us j (erase u m) ∙ rw (f, t, gone) (ground arith))
    ]
    | inr (t, other) ↦ elim (Bool-cases (mem u urls)) [
      | inl e ↦ rw (e, t) (lookup-drop_stale urls us j m)
      | inr e ↦
          let kept : lookup j (erase u m) ≡ lookup j m = lookup-erase u j m ∙ rw t refl in
          rw (e, t) (lookup-drop_stale urls us j (erase u m) ∙ rw kept refl)
    ]
  ]

  mem-keys : (j : String) (m : Dict (ServerMetrics reals)) → mem j (keys m) ≡ is_some (lookup j m)
  unfolding lookup
  mem-keys j [] = refl
  mem-keys j ((key, value) ∷ m) = ground (arith, mem-keys j m)

  -- `SetServers` leaves exactly the entries of the servers that are listed: what they held before, or
  -- no metrics for those that are new.
  pub lookup-set_servers :
      (urls : List String) (j : String) (c : Collector reals)
      → lookup j (set_servers reals urls c).data_of
        ≡ (if mem j urls then some (or_new (lookup j c.data_of)) else none)
  unfolding set_servers
  lookup-set_servers urls j c =
      let added = add_missing reals urls c.data_of in
      lookup-drop_stale urls (keys added) j added
      ∙ ground (arith, mem-keys j added, lookup-add_missing urls j c.data_of)
