-- ===== src/Metrics/Crashes.antt =====
-- When the goroutine of metrics/metrics.go brings the program down, and when it cannot.
use llm_bridge.Metrics.Collector.{
  Reals, ServerMetrics, Collector, set_servers, with_rates, store_metrics, fetched, ran, panicked,
  Poll, take_metrics, fetch_from, fetch_all,
}
use llm_bridge.Metrics.Covered.{mem, lookup-set_servers}
use llm_bridge.Metrics.Panics.{take_metrics-panicked, take_fetch-panicked, take_fetch-cases}
use llm_bridge.Metrics.Worker.{
  Worker, up, crashed, WorkerEvent, polls, sets_servers, polled, worker_event, worker_events,
}
use llm_bridge.Base.{
  ℕ, ◌+◌, String, ◌≡◌, refl, sym, subst, ◌∙◌, ◌≢◌, ◌⊎◌, inl, inr, true, false, none, List, [], ◌∷◌,
  str_eq, str_eq-cases, Option-cases, Memᴰ, lookup, lookup-insert,
}

later : (v u : String) (us : List String) → v ≢ u → Memᴰ u (v ∷ us) → Memᴰ u us
later v u us other (Memᴰ.head e) = absurd (other (sym e))
later v u us other (Memᴰ.tail m) = m

module _ (reals : Reals) where
  -- A round in which every server answers.
  abbrev pub AllAnswer : (ℕ → Poll reals) → Type 0
  AllAnswer ps =
      (i : ℕ) → (m : ServerMetrics reals) × ((ps i).context ≡ none) × ((ps i).fetch ≡ fetched m)

  -- The server has counters and no entry.
  abbrev IsGone : String → Collector reals → Type 0
  IsGone u c = (lookup u c.prev ≢ none) × (lookup u c.data_of ≡ none)

  store_metrics-IsGone :
      (u v : String) (m : ServerMetrics reals) (c : Collector reals)
      → str_eq v u ≡ false
      → IsGone u c
      → IsGone u (store_metrics reals v m c)
  store_metrics-IsGone u v m c e h = (
    λ k. h.0 (sym (lookup-insert v u _ c.prev ∙ rw e refl) ∙ k),
    (lookup-insert v u m c.data_of ∙ rw e refl) ∙ h.1,
  )

  take_metrics-IsGone :
      (u v : String) (m : ServerMetrics reals) (c : Collector reals)
      → str_eq v u ≡ false
      → IsGone u c
      → (take_metrics reals v m c ≡ panicked)
        ⊎ ((c' : Collector reals) × (take_metrics reals v m c ≡ ran c') × IsGone u c')
  unfolding take_metrics
  take_metrics-IsGone u v m c e h = elim (Option-cases (lookup v c.prev)) [
    | inl k ↦
        inr (store_metrics reals v m c, rw (k, take_metrics), store_metrics-IsGone u v m c e h)
    | inr (prev, k) ↦ elim (Option-cases (lookup v c.data_of)) [
      | inl j ↦ inl (take_metrics-panicked reals v m c (λ q. cc) j)
      | inr (old, j) ↦
          let t = with_rates reals prev old m in
          inr (store_metrics reals v t c, rw (k, take_metrics, j), store_metrics-IsGone u v t c e h)
    ]
  ]

  fetch_from-panicked :
      (us : List String) (i : ℕ) (ps : ℕ → Poll reals) (u : String) (c : Collector reals)
      → AllAnswer ps
      → Memᴰ u us
      → IsGone u c
      → fetch_from reals us i ps c ≡ panicked
  unfolding fetch_from
  fetch_from-panicked [] i ps u c a listed h = elim listed [ ]
  fetch_from-panicked (v ∷ us) i ps u c a listed h =
      let (m, live, answers) = a i in
      elim (str_eq-cases v u) [
        | inl (t, same) ↦ rw (
          live,
          fetch_from,
          answers,
          take_fetch-panicked reals v m (ps i).is_raced c (
              take_metrics-panicked reals v m c (subst (λ k. lookup k c.prev ≢ none) (sym same) h.0)
                (subst (λ k. lookup k c.data_of ≡ none) (sym same) h.1)),
        )
        | inr (t, other) ↦ elim (take_metrics-IsGone u v m c t h) [
          | inl p ↦
              rw (live, fetch_from, answers, take_fetch-panicked reals v m (ps i).is_raced c p)
          | inr (c', p, g) ↦ elim (take_fetch-cases reals v m (ps i).is_raced c) [
            | inl q ↦ rw (live, fetch_from, answers, q)
            | inr q ↦
                rw (live, fetch_from, answers, q, p)
                  (fetch_from-panicked us (i + 1) ps u c' a (later v u us other listed) g)
          ]
        ]
      ]

  worker_events-crashed : (es : List (WorkerEvent reals)) → worker_events reals es crashed ≡ crashed
  unfolding worker_events
  worker_events-crashed [] = refl
  worker_events-crashed (e ∷ es) = worker_events-crashed es

  -- A server that is deleted brings the program down: once `SetServers` leaves out a server that the
  -- goroutine polls and that has answered before, the next round in which the servers answer panics,
  -- and with it the program, whatever comes later.
  pub worker_events-sets_servers :
      (listed : List String) (u : String) (ps : ℕ → Poll reals) (w : Worker reals)
      (es : List (WorkerEvent reals))
      → w.running ≡ true
      → Memᴰ u w.urls
      → lookup u w.collector.prev ≢ none
      → mem u listed ≡ false
      → AllAnswer ps
      → worker_events reals (sets_servers listed ∷ polls ps ∷ es) (up w) ≡ crashed
  unfolding worker_events worker_event fetch_all set_servers
  worker_events-sets_servers listed u ps w es r m polled unlisted a =
      let gone = lookup-set_servers reals listed u w.collector ∙ rw unlisted refl in
      let c = set_servers reals listed w.collector in
      let k : fetch_all reals w.urls ps c ≡ panicked =
        fetch_from-panicked w.urls 0 ps u c a m (polled, gone) in
      simp (r, k) (worker_events-crashed es)
