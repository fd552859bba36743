-- ===== src/Metrics/Steady.antt =====
-- metrics/metrics.go: the collector's goroutine as long as no server that it polls is taken out.
use llm_bridge.Metrics.Collector.{
  Reals, ServerMetrics, PrevCounters, Collector, new_collector, start_entries, set_servers, remove,
  store_metrics, with_rates, take_metrics, Fetch, fetch_failed, fetched, take_fetch, Poll,
  FetchResult, ran, panicked, fetch_from, fetch_all,
}
use llm_bridge.Metrics.Covered.{mem, lookup-set_servers}
use llm_bridge.Metrics.Panics.{IsCovered, IsUnraced, fetch_all-HasRun, take_fetch-cases}
use llm_bridge.Metrics.Worker.{
  Worker, Process, up, start_worker, WorkerEvent, polls, sees_end, ends_context, stops,
  sets_servers, removes, worker_event, worker_events,
}
use llm_bridge.Base.{
  ℕ, ◌+◌, String, ◌≡◌, refl, sym, subst, ◌⊎◌, inl, inr, Bool, true, false, not, ◌&&◌, ◌||◌, List,
  [], ◌∷◌, arith, str_eq-cases, str_eq_self, Bool-cases, Option-cases, is_some, All, All-of_Memᴰ,
  Memᴰ, lookup, lookup-insert, lookup-erase,
}

mem-All :
    (u : String) (urls listed : List String)
    → mem u urls ≡ true
    → All (λ v. mem v listed ≡ true) urls
    → mem u listed ≡ true
mem-All u [] listed h a = cc
mem-All u (v ∷ urls) listed h (k, a) = elim (str_eq-cases v u) [
  | inl (t, e) ↦ subst (λ x. mem x listed ≡ true) e k
  | inr (t, e) ↦ mem-All u urls listed (rw t at h) a
]

mem-Memᴰ : (u : String) (urls : List String) → Memᴰ u urls → mem u urls ≡ true
mem-Memᴰ u [] m = elim m [ ]
mem-Memᴰ u (v ∷ urls) (Memᴰ.head e) = rw (← e, str_eq_self u)
mem-Memᴰ u (v ∷ urls) (Memᴰ.tail m) = ground (arith, mem-Memᴰ u urls m)

mem_self : (urls : List String) → All (λ v. mem v urls ≡ true) urls
mem_self urls = All-of_Memᴰ (λ v. mem v urls ≡ true) urls (λ v m. mem-Memᴰ v urls m)

module _ (reals : Reals) (urls : List String) where
  -- Only servers that are polled have counters.
  abbrev IsWithin : Collector reals → Type 0
  IsWithin c = (u : String) → is_some (lookup u c.prev) && not (mem u urls) ≡ false

  abbrev EndsWithin : FetchResult reals → Type 0
  EndsWithin (ran c) = IsWithin c
  EndsWithin panicked = Unit {0}

  store_metrics-IsWithin :
      (u : String) (m : ServerMetrics reals) (c : Collector reals)
      → mem u urls ≡ true
      → IsWithin c
      → IsWithin (store_metrics reals u m c)
  store_metrics-IsWithin u m c k h j =
      let counters : PrevCounters reals = record {
        prompt_tokens = m.prompt_tokens_total;
        gen_tokens = m.gen_tokens_total;
      } in
      elim (str_eq-cases u j) [
        | inl (t, e) ↦
            rw (lookup-insert u j counters c.prev, t, subst (λ v. mem v urls ≡ true) e k) refl
        | inr (t, e) ↦ rw (lookup-insert u j counters c.prev, t) (h j)
      ]

  take_metrics-EndsWithin :
      (u : String) (m : ServerMetrics reals) (c : Collector reals)
      → mem u urls ≡ true
      → IsWithin c
      → EndsWithin (take_metrics reals u m c)
  unfolding take_metrics
  take_metrics-EndsWithin u m c k h = elim (Option-cases (lookup u c.prev)) [
    | inl e ↦ rw (e, take_metrics) (store_metrics-IsWithin u m c k h)
    | inr (prev, e) ↦ elim (Option-cases (lookup u c.data_of)) [
      | inl d ↦ rw (e, take_metrics, d) tt
      | inr (old, d) ↦
          rw (e, take_metrics, d) (store_metrics-IsWithin u (with_rates reals prev old m) c k h)
    ]
  ]

  take_fetch-EndsWithin :
      (u : String) (f : Fetch reals) (is_raced : Bool) (c : Collector reals)
      → mem u urls ≡ true
      → IsWithin c
      → EndsWithin (take_fetch reals u f is_raced c)
  unfolding take_fetch
  take_fetch-EndsWithin u fetch_failed b c k h = h
  take_fetch-EndsWithin u (fetched m) b c k h = elim (take_fetch-cases reals u m b c) [
    | inl e ↦ subst EndsWithin (sym e) tt
    | inr e ↦ subst EndsWithin (sym e) (take_metrics-EndsWithin u m c k h)
  ]

  FetchResult-cases :
      (r : FetchResult reals) → (r ≡ panicked) ⊎ ((c : Collector reals) × (r ≡ ran c))
  FetchResult-cases panicked = inl refl
  FetchResult-cases (ran c) = inr (c, refl)

  fetch_from-EndsWithin :
      (us : List String) (i : ℕ) (ps : ℕ → Poll reals) (c : Collector reals)
      → All (λ u. mem u urls ≡ true) us
      → IsWithin c
      → EndsWithin (fetch_from reals us i ps c)
  unfolding fetch_from
  fetch_from-EndsWithin [] i ps c a h = h
  fetch_from-EndsWithin (u ∷ us) i ps c (k, a) h = elim (Option-cases (ps i).context) [
    | inr (e, d) ↦ rw (d, fetch_from) h
    | inl d ↦
        let g = take_fetch-EndsWithin u (ps i).fetch (ps i).is_raced c k h in
        elim (FetchResult-cases (take_fetch reals u (ps i).fetch (ps i).is_raced c)) [
          | inl r ↦ rw (d, fetch_from, r) tt
          | inr (c', r) ↦
              rw (d, fetch_from, r)
                (fetch_from-EndsWithin us (i + 1) ps c' a (subst EndsWithin r g))
        ]
  ]

  fetch_all-EndsWithin :
      (ps : ℕ → Poll reals) (c : Collector reals)
      → IsWithin c
      → EndsWithin (fetch_all reals urls ps c)
  unfolding fetch_all
  fetch_all-EndsWithin ps c h = fetch_from-EndsWithin urls 0 ps c (mem_self urls) h

  -- A list with all servers that are polled leaves an entry for each that has counters.
  set_servers-IsCovered :
      (listed : List String) (c : Collector reals)
      → All (λ u. mem u listed ≡ true) urls
      → IsWithin c
      → IsCovered reals (set_servers reals listed c)
  unfolding set_servers
  set_servers-IsCovered listed c a h u = elim (Bool-cases (mem u urls)) [
    | inl k ↦
        let there = lookup-set_servers reals listed u c in
        let kept = mem-All u urls listed k a in ground (arith, rw kept at there)
    | inr k ↦ ground (arith, h u, k)
  ]

  set_servers-IsWithin :
      (listed : List String) (c : Collector reals)
      → IsWithin c
      → IsWithin (set_servers reals listed c)
  unfolding set_servers
  set_servers-IsWithin listed c h = h

  remove-IsWithin : (v : String) (c : Collector reals) → IsWithin c → IsWithin (remove reals v c)
  unfolding remove
  remove-IsWithin v c h = h

  remove-IsCovered :
      (v : String) (c : Collector reals)
      → mem v urls ≡ false
      → IsWithin c
      → IsCovered reals c
      → IsCovered reals (remove reals v c)
  unfolding remove
  remove-IsCovered v c k h g u = elim (str_eq-cases v u) [
    | inl (t, e) ↦
        let out : mem u urls ≡ false = subst (λ x. mem x urls ≡ false) e k in
        ground (arith, h u, out)
    | inr (t, e) ↦ rw (lookup-erase v u c.data_of, t) (g u)
  ]

  -- No server that is polled is taken out of the collector, no handler writes the map at the moment of
  -- an unlocked read, and `Stop` is called once at most.
  abbrev pub IsSteady : List (WorkerEvent reals) → Bool → Type 0
  IsSteady [] stopped = Unit
  IsSteady (polls ps ∷ es) stopped = IsUnraced reals ps × IsSteady es stopped
  IsSteady (sees_end ∷ es) stopped = IsSteady es stopped
  IsSteady (ends_context ∷ es) stopped = IsSteady es stopped
  IsSteady (stops ∷ es) stopped = (stopped ≡ false) × IsSteady es true
  IsSteady (sets_servers listed ∷ es) stopped =
      All (λ u. mem u listed ≡ true) urls × IsSteady es stopped
  IsSteady (removes u ∷ es) stopped = (mem u urls ≡ false) × IsSteady es stopped

  -- The program runs, every server with counters has an entry, and is polled.
  pub data IsUp : Process reals → Type 0 where
    is_up :
        {w : Worker reals}
        → w.urls ≡ urls
        → IsCovered reals w.collector
        → IsWithin w.collector
        → IsUp (up w)

  start_entries-IsCovered : IsCovered reals (start_entries reals urls (new_collector reals))
  unfolding start_entries lookup
  start_entries-IsCovered u = refl

  start_entries-IsWithin : IsWithin (start_entries reals urls (new_collector reals))
  unfolding start_entries lookup
  start_entries-IsWithin u = refl

  worker_events-IsUp :
      (es : List (WorkerEvent reals)) (w : Worker reals)
      → IsSteady es w.stop_closed
      → w.urls ≡ urls
      → IsCovered reals w.collector
      → IsWithin w.collector
      → IsUp (worker_events reals es (up w))
  unfolding worker_events worker_event
  worker_events-IsUp [] w st n h g = is_up n h g
  worker_events-IsUp (polls ps ∷ es) w (unraced, st) n h g = elim (Bool-cases w.running) [
    | inl e ↦
        let r = fetch_all-HasRun reals urls ps w.collector unraced h in
        let within = fetch_all-EndsWithin ps w.collector g in
        simp (e, n, r.result)
          (worker_events-IsUp es (record w { collector = r.after; urls = urls; running = true }) st
            refl r.covered (subst EndsWithin r.result within))
    | inr e ↦ simp e (worker_events-IsUp es w st n h g)
  ]
  worker_events-IsUp (sees_end ∷ es) w st n h g =
      worker_events-IsUp es
        (record w { running = w.running && not (w.context_done || w.stop_closed) }) st n h g
  worker_events-IsUp (ends_context ∷ es) w st n h g =
      worker_events-IsUp es (record w { context_done = true }) st n h g
  worker_events-IsUp (stops ∷ es) w (e, st) n h g =
      simp e (worker_events-IsUp es (record w { stop_closed = true }) st n h g)
  worker_events-IsUp (sets_servers listed ∷ es) w (a, st) n h g =
      worker_events-IsUp es (record w { collector = set_servers reals listed w.collector }) st n
        (set_servers-IsCovered listed w.collector a g) (set_servers-IsWithin listed w.collector g)
  worker_events-IsUp (removes u ∷ es) w (k, st) n h g =
      worker_events-IsUp es (record w { collector = remove reals u w.collector }) st n
        (remove-IsCovered u w.collector k g h) (remove-IsWithin u w.collector g)

  -- `Start` of a new collector does not panic.
  start_worker-IsUp :
      (ps : ℕ → Poll reals) (context_done : Bool)
      → IsUnraced reals ps
      → (w : Worker reals) × (start_worker reals urls ps context_done ≡ up w)
        × (w.stop_closed ≡ false)
        × (w.urls ≡ urls)
        × IsCovered reals w.collector
        × IsWithin w.collector
  unfolding start_worker
  start_worker-IsUp ps b unraced =
      let r = fetch_all-HasRun reals urls ps _ unraced start_entries-IsCovered in
      let within = fetch_all-EndsWithin ps _ start_entries-IsWithin in
      rw r.result (_, refl, refl, refl, r.covered, subst EndsWithin r.result within)

  -- From `Start` of a new collector on, the program does not panic in the collector, whatever the
  -- servers answer, at any poll, and whenever the context ends, as long as no server that `Start` was
  -- given is taken out: `Remove` is called for others only, and every list that is given to
  -- `SetServers` has them all, and may have more. `Stop` is called once at most, and no handler
  -- writes the map at the moment when a poll reads it without the lock.
  pub worker_events-start_worker :
      (ps : ℕ → Poll reals) (context_done : Bool) (es : List (WorkerEvent reals))
      → IsUnraced reals ps
      → IsSteady es false
      → IsUp (worker_events reals es (start_worker reals urls ps context_done))
  worker_events-start_worker ps context_done es unraced st =
      let (w, e, open_channel, n, h, g) = start_worker-IsUp ps context_done unraced in
      rw e (worker_events-IsUp es w (subst (IsSteady es) (sym open_channel) st) n h g)
