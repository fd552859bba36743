-- ===== src/Metrics/Collector.antt =====
-- metrics/metrics.go: `Collector`. A poll of a server is what the context says before it and what
-- `fetchOne` returns. A dereference of nil is a panic, which ends the program.
use llm_bridge.Backend.Pool.{Context}
use llm_bridge.Base.{
  ℕ, ◌+◌, String, Bool, ◌&&◌, Option, is_some, none, some, List, [], ◌∷◌, str_eq, if◌then◌else◌,
  any, Dict, lookup, insert, erase, keys,
}
use llm_bridge.Base.Int.{ℤ, pos, ltb_ℤ, sub64}

-- What is used of float64 and of `time.Time`: the zero time is `none`.
pub record Reals : Type 1 where
  pub Real : Type 0
  pub zero_real : Real
  -- `float64(n) / dt`, for a duration in nanoseconds.
  pub rate : ℤ → ℤ → Real
  pub time_sub : Option ℤ → Option ℤ → ℤ

module _ (reals : Reals) where
  pub record ServerMetrics : Type 0 where
    pub requests_running : ℤ
    pub requests_waiting : ℤ
    pub kv_cache_usage_perc : reals.Real
    pub prompt_tokens_total : ℤ
    pub gen_tokens_total : ℤ
    pub prefill_throughput : reals.Real
    pub decode_throughput : reals.Real
    pub avg_prefill_time_ms : reals.Real
    pub avg_decode_time_ms : reals.Real
    pub updated_at : Option ℤ

  abbrev pub no_metrics : ServerMetrics
  no_metrics = record {
    requests_running = pos 0;
    requests_waiting = pos 0;
    kv_cache_usage_perc = reals.zero_real;
    prompt_tokens_total = pos 0;
    gen_tokens_total = pos 0;
    prefill_throughput = reals.zero_real;
    decode_throughput = reals.zero_real;
    avg_prefill_time_ms = reals.zero_real;
    avg_decode_time_ms = reals.zero_real;
    updated_at = none;
  }

  pub record PrevCounters : Type 0 where
    pub prompt_tokens : ℤ
    pub gen_tokens : ℤ

  pub record Collector : Type 0 where
    pub data_of : Dict ServerMetrics
    pub prev : Dict PrevCounters

  abbrev pub new_collector : Collector
  new_collector = record { data_of = []; prev = [] }

  abbrev pub add_entry : String → Option ServerMetrics → Dict ServerMetrics → Dict ServerMetrics
  add_entry u none m = insert u no_metrics m
  add_entry u (some old) m = m

  -- The loop that adds an entry for each server that has none.
  unfoldable pub add_missing : List String → Dict ServerMetrics → Dict ServerMetrics
  add_missing [] m = m
  add_missing (u ∷ us) m = add_missing us (add_entry u (lookup u m) m)

  -- The loop that deletes the entries of servers that are not listed.
  unfoldable pub drop_stale : List String → List String → Dict ServerMetrics → Dict ServerMetrics
  drop_stale urls [] m = m
  drop_stale urls (u ∷ us) m =
      drop_stale urls us (if any (λ nu. str_eq nu u) urls then m else erase u m)

  -- The entries that `Start` makes before its first poll.
  unfoldable pub start_entries : List String → Collector → Collector
  start_entries urls c = record c { data_of = add_missing urls c.data_of }

  unfoldable pub set_servers : List String → Collector → Collector
  set_servers urls c =
      let added = add_missing urls c.data_of in
      record c { data_of = drop_stale urls (keys added) added }

  unfoldable pub remove : String → Collector → Collector
  remove u c = record c { data_of = erase u c.data_of }

  abbrev pub positive_rate : ℤ → ℤ → ℤ → reals.Real → reals.Real
  positive_rate dt before now r =
      if ltb_ℤ (pos 0) dt && ltb_ℤ (pos 0) before then reals.rate (sub64 now before) dt else r

  -- The throughput since the last poll.
  abbrev pub with_rates : PrevCounters → ServerMetrics → ServerMetrics → ServerMetrics
  with_rates prev old m =
      let dt = reals.time_sub m.updated_at old.updated_at in
      record m {
        prefill_throughput =
            positive_rate dt prev.prompt_tokens m.prompt_tokens_total m.prefill_throughput;
        decode_throughput = positive_rate dt prev.gen_tokens m.gen_tokens_total m.decode_throughput;
      }

  abbrev pub store_metrics : String → ServerMetrics → Collector → Collector
  store_metrics u m c = record {
    data_of = insert u m c.data_of;
    prev =
        insert u (record { prompt_tokens = m.prompt_tokens_total; gen_tokens = m.gen_tokens_total })
          c.prev;
  }

  -- What `fetchOne` returns.
  pub data Fetch : Type 0 where
    fetch_failed : Fetch
    fetched : ServerMetrics → Fetch

  pub data FetchResult : Type 0 where
    ran : Collector → FetchResult
    panicked : FetchResult

  pub record Poll : Type 0 where
    pub context : Context
    pub fetch : Fetch
    -- Whether a handler writes `c.data` at the moment of the read that takes no lock.
    pub is_raced : Bool

  abbrev pub store_with_rates :
      String → PrevCounters → Option ServerMetrics → ServerMetrics → Collector → FetchResult
  store_with_rates u prev none m c = panicked
  store_with_rates u prev (some old) m c = ran (store_metrics u (with_rates prev old m) c)

  -- What is done with the metrics of a server: they are stored, with rates if there were some before.
  unfoldable pub take_metrics : String → ServerMetrics → Collector → FetchResult
  take_metrics u m c = elim (lookup u c.prev) [
    | none ↦ ran (store_metrics u m c)
    | some prev ↦ store_with_rates u prev (lookup u c.data_of) m c
  ]

  -- `c.data` is read for a server that has counters: the runtime ends the program, as a panic does,
  -- if the map is written at that moment.
  unfoldable pub take_fetch : String → Fetch → Bool → Collector → FetchResult
  unfolding take_metrics
  take_fetch u fetch_failed is_raced c = ran c
  take_fetch u (fetched m) is_raced c =
      if is_raced && is_some (lookup u c.prev) then panicked else take_metrics u m c

  -- `fetchAll`, from a position of the servers on.
  unfoldable pub fetch_from : List String → ℕ → (ℕ → Poll) → Collector → FetchResult
  fetch_from [] i polls c = ran c
  fetch_from (u ∷ us) i polls c = elim (polls i).context [
    | some e ↦ ran c
    | none ↦ elim (take_fetch u (polls i).fetch (polls i).is_raced c) [
      | ran c' ↦ fetch_from us (i + 1) polls c'
      | panicked ↦ panicked
    ]
  ]

  unfoldable pub fetch_all : List String → (ℕ → Poll) → Collector → FetchResult
  unfolding fetch_from
  fetch_all urls polls c = fetch_from urls 0 polls c
