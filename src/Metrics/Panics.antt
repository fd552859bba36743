-- ===== src/Metrics/Panics.antt =====
-- When a poll of metrics/metrics.go dereferences an entry that is not there.
use llm_bridge.Metrics.Collector.{
  Reals, ServerMetrics, Collector, set_servers, with_rates, store_metrics, Fetch, fetch_failed,
  fetched, FetchResult, ran, panicked, Poll, take_metrics, take_fetch, fetch_from, fetch_all,
}
use llm_bridge.Metrics.Covered.{mem, lookup-set_servers}
use llm_bridge.Base.{
  ℕ, ◌+◌, String, ◌≡◌, refl, ◌∙◌, ◌≢◌, ◌⊎◌, inl, inr, Bool, Bool-cases, false, not, ◌&&◌, none,
  List, [], ◌∷◌, arith, Option-cases, is_some, lookup, lookup-insert,
}

module _ (reals : Reals) where
  -- Every server with counters has an entry.
  abbrev pub IsCovered : Collector reals → Type 0
  IsCovered c =
      (u : String) → is_some (lookup u c.prev) && not (is_some (lookup u c.data_of)) ≡ false

  -- The result of a poll that has not panicked, with an entry for every server with counters.
  pub record HasRun (r : FetchResult reals) : Type 0 where
    pub after : Collector reals
    pub result : r ≡ ran after
    pub covered : IsCovered after

  store_metrics-IsCovered :
      (u : String) (m : ServerMetrics reals) (c : Collector reals)
      → IsCovered c
      → IsCovered (store_metrics reals u m c)
  store_metrics-IsCovered u m c h j = ground (
    arith,
    h j,
    lookup-insert u j m c.data_of,
    lookup-insert u j
        (record { prompt_tokens = m.prompt_tokens_total; gen_tokens = m.gen_tokens_total }) c.prev,
  )

  take_metrics-HasRun :
      (u : String) (m : ServerMetrics reals) (c : Collector reals)
      → IsCovered c
      → HasRun (take_metrics reals u m c)
  unfolding take_metrics
  take_metrics-HasRun u m c h = elim (Option-cases (lookup u c.prev)) [
    | inl e ↦
        rw (e, take_metrics)
          (record {
            after = store_metrics reals u m c;
            result = refl;
            covered = store_metrics-IsCovered u m c h;
          })
    | inr (prev, e) ↦ elim (Option-cases (lookup u c.data_of)) [
      | inl k ↦ absurd (let b = h u in cc (rw (e, k) at b))
      | inr (old, k) ↦
          rw (e, take_metrics, k)
            (record {
              after = store_metrics reals u (with_rates reals prev old m) c;
              result = refl;
              covered = store_metrics-IsCovered u (with_rates reals prev old m) c h;
            })
    ]
  ]

  take_fetch-HasRun :
      (u : String) (f : Fetch reals) (c : Collector reals)
      → IsCovered c
      → HasRun (take_fetch reals u f false c)
  unfolding take_fetch
  take_fetch-HasRun u fetch_failed c h = record { after = c; result = refl; covered = h }
  take_fetch-HasRun u (fetched m) c h = take_metrics-HasRun u m c h

  -- No handler writes the map at the moment of an unlocked read.
  abbrev pub IsUnraced : (ℕ → Poll reals) → Type 0
  IsUnraced polls = (i : ℕ) → (polls i).is_raced ≡ false

  fetch_from-HasRun :
      (us : List String) (i : ℕ) (polls : ℕ → Poll reals) (c : Collector reals)
      → IsUnraced polls
      → IsCovered c
      → HasRun (fetch_from reals us i polls c)
  unfolding fetch_from
  fetch_from-HasRun [] i polls c n h = record { after = c; result = refl; covered = h }
  fetch_from-HasRun (u ∷ us) i polls c n h = elim (Option-cases (polls i).context) [
    | inr (e, k) ↦ rw (k, fetch_from) (record { after = c; result = refl; covered = h })
    | inl k ↦
        let r = take_fetch-HasRun u (polls i).fetch c h in
        rw (k, fetch_from, n i, r.result) (fetch_from-HasRun us (i + 1) polls r.after n r.covered)
  ]

  -- As long as every server with counters has an entry, a round of polls ends without a panic,
  -- whatever the servers answer and wherever the context ends it, and leaves it so, unless the map
  -- is written during an unlocked read.
  pub fetch_all-HasRun :
      (urls : List String) (polls : ℕ → Poll reals) (c : Collector reals)
      → IsUnraced polls
      → IsCovered c
      → HasRun (fetch_all reals urls polls c)
  unfolding fetch_all
  fetch_all-HasRun urls polls c n h = fetch_from-HasRun urls 0 polls c n h

  pub take_metrics-panicked :
      (u : String) (m : ServerMetrics reals) (c : Collector reals)
      → lookup u c.prev ≢ none
      → lookup u c.data_of ≡ none
      → take_metrics reals u m c ≡ panicked
  unfolding take_metrics
  take_metrics-panicked u m c polled gone = elim (Option-cases (lookup u c.prev)) [
    | inl e ↦ absurd (polled e)
    | inr (prev, e) ↦ rw (e, take_metrics, gone) refl
  ]

  pub take_fetch-cases :
      (u : String) (m : ServerMetrics reals) (is_raced : Bool) (c : Collector reals)
      → (take_fetch reals u (fetched m) is_raced c ≡ panicked)
        ⊎ (take_fetch reals u (fetched m) is_raced c ≡ take_metrics reals u m c)
  unfolding take_fetch
  take_fetch-cases u m b c = elim (Bool-cases (b && is_some (lookup u c.prev))) [
    | inl e ↦ inl (rw e refl)
    | inr e ↦ inr (rw e refl)
  ]

  pub take_fetch-panicked :
      (u : String) (m : ServerMetrics reals) (is_raced : Bool) (c : Collector reals)
      → take_metrics reals u m c ≡ panicked
      → take_fetch reals u (fetched m) is_raced c ≡ panicked
  take_fetch-panicked u m b c e = elim (take_fetch-cases u m b c) [ inl p ↦ p | inr p ↦ p ∙ e ]

  -- After `SetServers`, a poll of a server panics if the server has counters and is not listed any
  -- more, as soon as it answers.
  pub take_fetch-set_servers :
      (urls : List String) (u : String) (m : ServerMetrics reals) (is_raced : Bool)
      (c : Collector reals)
      → lookup u c.prev ≢ none
      → mem u urls ≡ false
      → take_fetch reals u (fetched m) is_raced (set_servers reals urls c) ≡ panicked
  unfolding set_servers
  take_fetch-set_servers urls u m b c polled unlisted =
      take_fetch-panicked u m b (set_servers reals urls c) (
        take_metrics-panicked u m (set_servers reals urls c) polled
          (lookup-set_servers reals urls u c ∙ rw unlisted refl))
