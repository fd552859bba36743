-- ===== src/Config/Valid.antt =====
-- What a configuration guarantees once `Load` or `Set` has taken it (config/config.go).
use llm_bridge.Config.Env.{
  Env, env_int, env_string, apply_env_overrides, positive_or, nonnegative, valid_strategy_or_error,
}
use llm_bridge.Config.Types.{GlobalConfig, default_config, strategy_valid}
use llm_bridge.Config.Store.{
  Yaml, ReadOutcome, unreadable, WriteOutcome, Store, fill_defaults, load, save_locked-config,
  readable, load_text, load_file,
}
use llm_bridge.Config.Atoi.{atoi}
use llm_bridge.Base.{
  String, ◌≡◌, refl, ◌≢◌, ◌⊎◌, inl, inr, true, Option, none, some, arith, Bool-cases, Option-cases,
  str_eq-cases,
}
use llm_bridge.Base.Int.{ℤ, pos, ◌≤ℤ◌, leb_ℤ}

-- A known strategy, and every interval, timeout and token count in its range.
pub record IsRunnable (g : GlobalConfig) : Type 0 where
  pub strategy : strategy_valid g.fallback_strategy ≡ true
  pub discovery : pos 1 ≤ℤ g.discovery_interval_sec
  pub request : pos 1 ≤ℤ g.request_timeout_sec
  pub queue : pos 1 ≤ℤ g.queue_timeout_sec
  pub drain : pos 1 ≤ℤ g.drain_timeout_sec
  pub shutdown : pos 1 ≤ℤ g.shutdown_timeout_sec
  pub output : pos 1 ≤ℤ g.open_code_context_output
  pub buffer : pos 1 ≤ℤ g.open_code_context_buffer
  pub input : pos 0 ≤ℤ g.open_code_context_input

positive_or-pos : (d v : ℤ) → pos 1 ≤ℤ d → pos 1 ≤ℤ positive_or d v
positive_or-pos d v h = ground arith

nonnegative-nonneg : (v : ℤ) → pos 0 ≤ℤ nonnegative v
nonnegative-nonneg v = ground arith

valid_strategy_or_error-valid : (s : String) → strategy_valid (valid_strategy_or_error s) ≡ true
valid_strategy_or_error-valid s = elim (Bool-cases (strategy_valid s)) [
  | inl e ↦ rw e e
  | inr e ↦ rw e (unfold strategy_valid in refl)
]

-- Whatever the environment and the file hold, the overridden configuration is runnable.
pub apply_env_overrides-IsRunnable :
    (env : Env) (g : GlobalConfig) → IsRunnable (apply_env_overrides env g)
unfolding apply_env_overrides
apply_env_overrides-IsRunnable env g = record {
  strategy = valid_strategy_or_error-valid (env_string env "FALLBACK_STRATEGY" g.fallback_strategy);
  discovery = ground arith;
  request = ground arith;
  queue = ground arith;
  drain = ground arith;
  shutdown = ground arith;
  output = ground arith;
  buffer = ground arith;
  input = ground arith;
}

default-IsRunnable : IsRunnable default_config.global
unfolding strategy_valid
default-IsRunnable = record {
  strategy = refl;
  discovery = omega arith;
  request = omega arith;
  queue = omega arith;
  drain = omega arith;
  shutdown = omega arith;
  output = omega arith;
  buffer = omega arith;
  input = omega arith;
}

-- Where a number of the configuration comes from: the environment, if the variable holds a number;
-- else the file; and the default in place of either, if it is not positive.
pub data Resolves (env : Env) (key : String) (yaml default_val result : ℤ) : Type 0 where
  from_env :
      (v : ℤ)
      → env key ≢ ""
      → atoi (env key) ≡ some v
      → pos 1 ≤ℤ v
      → result ≡ v
      → Resolves env key yaml default_val result
  default_for_env :
      (v : ℤ)
      → env key ≢ ""
      → atoi (env key) ≡ some v
      → v ≤ℤ pos 0
      → result ≡ default_val
      → Resolves env key yaml default_val result
  from_file :
      (env key ≡ "") ⊎ (atoi (env key) ≡ none)
      → pos 1 ≤ℤ yaml
      → result ≡ yaml
      → Resolves env key yaml default_val result
  default_for_file :
      (env key ≡ "") ⊎ (atoi (env key) ≡ none)
      → yaml ≤ℤ pos 0
      → result ≡ default_val
      → Resolves env key yaml default_val result

positive_or-cases :
    (d v : ℤ) → ((pos 1 ≤ℤ v) × (positive_or d v ≡ v)) ⊎ ((v ≤ℤ pos 0) × (positive_or d v ≡ d))
positive_or-cases d v = elim (Bool-cases (leb_ℤ v (pos 0))) [
  | inl e ↦ inr (ground arith, rw e refl)
  | inr e ↦ inl (ground arith, rw e refl)
]

env_int-Resolves :
    (env : Env) (key : String) (yaml d : ℤ)
    → Resolves env key yaml d (positive_or d (env_int env key yaml))
unfolding env_int
env_int-Resolves env key yaml d =
    let unused : (env key ≡ "") ⊎ (atoi (env key) ≡ none)
        → Resolves env key yaml d (positive_or d yaml) =
      λ ignored. elim (positive_or-cases d yaml) [
        | inl (p, e) ↦ from_file ignored p e
        | inr (p, e) ↦ default_for_file ignored p e
      ] in
    elim (str_eq-cases (env key) "") [
      | inl (t, e) ↦ rw t (unused (inl e))
      | inr (t, h) ↦ elim (Option-cases (atoi (env key))) [
        | inl e ↦ rw (t, e) (unused (inr e))
        | inr (v, e) ↦ elim (positive_or-cases d v) [
          | inl (p, k) ↦ rw (t, e) (from_env v h e p k)
          | inr (p, k) ↦ rw (t, e) (default_for_env v h e p k)
        ]
      ]
    ]

-- Each number of the configuration that has a positive default comes from the environment, if its
-- variable holds a number, else from the file, and is the default where that number is not positive.
pub apply_env_overrides-Resolves :
    (env : Env) (g : GlobalConfig)
    → let r = apply_env_overrides env g in
      Resolves env "DISCOVERY_INTERVAL_SEC" g.discovery_interval_sec
        (pos 15)
        r.discovery_interval_sec
      × Resolves env "REQUEST_TIMEOUT_SEC" g.request_timeout_sec (pos 60) r.request_timeout_sec
      × Resolves env "QUEUE_TIMEOUT_SEC" g.queue_timeout_sec (pos 30) r.queue_timeout_sec
      × Resolves env "DRAIN_TIMEOUT_SEC" g.drain_timeout_sec (pos 30) r.drain_timeout_sec
      × Resolves env "SHUTDOWN_TIMEOUT_SEC" g.shutdown_timeout_sec (pos 10) r.shutdown_timeout_sec
      × Resolves env "OPENCODE_CONTEXT_OUTPUT" g.open_code_context_output
          (pos 8192)
          r.open_code_context_output
      × Resolves env "OPENCODE_CONTEXT_BUFFER" g.open_code_context_buffer
          (pos 1024)
          r.open_code_context_buffer
unfolding apply_env_overrides
apply_env_overrides-Resolves env g = (
  env_int-Resolves env "DISCOVERY_INTERVAL_SEC" g.discovery_interval_sec (pos 15),
  env_int-Resolves env "REQUEST_TIMEOUT_SEC" g.request_timeout_sec (pos 60),
  env_int-Resolves env "QUEUE_TIMEOUT_SEC" g.queue_timeout_sec (pos 30),
  env_int-Resolves env "DRAIN_TIMEOUT_SEC" g.drain_timeout_sec (pos 30),
  env_int-Resolves env "SHUTDOWN_TIMEOUT_SEC" g.shutdown_timeout_sec (pos 10),
  env_int-Resolves env "OPENCODE_CONTEXT_OUTPUT" g.open_code_context_output (pos 8192),
  env_int-Resolves env "OPENCODE_CONTEXT_BUFFER" g.open_code_context_buffer (pos 1024),
)

load_file-IsRunnable :
    (yaml : Yaml) (env : Env) (r : ReadOutcome) (w : WriteOutcome) (file : Option String)
    (s : Store)
    → (load_file yaml env r w file s).1 ≡ none
    → IsRunnable (load_file yaml env r w file s).0.config.global
unfolding load_file
load_file-IsRunnable yaml env r w none s h = rw (save_locked-config yaml w _) default-IsRunnable
load_file-IsRunnable yaml env readable w (some text) s h =
    elim (Option-cases (yaml.unmarshal text)) [
      | inl e ↦ absurd (cc (rw (e, load_text) at h))
      | inr (cfg, e) ↦
          rw (e, load_text) (apply_env_overrides-IsRunnable env (fill_defaults cfg.global))
    ]
load_file-IsRunnable yaml env unreadable w (some text) s h = absurd (cc h)

-- After a `Load` without an error the configuration is runnable, whatever the file held and also if
-- there was none: a known strategy, positive intervals, timeouts and token counts, and an input
-- budget that is not negative.
pub load-IsRunnable :
    (yaml : Yaml) (env : Env) (r : ReadOutcome) (w : WriteOutcome) (s : Store)
    → (load yaml env r w s).1 ≡ none
    → IsRunnable (load yaml env r w s).0.config.global
unfolding load
load-IsRunnable yaml env r w s h = load_file-IsRunnable yaml env r w s.file s h
