-- ===== src/Config/Tests.antt =====
-- Tests of config/config.go's model, and its theorems at concrete inputs.
use mathlib.Core.Option.{some-injective}
use native.Mathlib.Decide.{ℕ_discrete}
use llm_bridge.Config.Types.{ServerConfig, GlobalConfig, Config, default_config, strategy_valid}
use llm_bridge.Config.Atoi.{atoi}
use llm_bridge.Config.Env.{Env, env_int, env_string, apply_env_overrides}
use llm_bridge.Config.Store.{
  Yaml, readable, written, StoreError, distance_range, Store, new_store, load, save_locked,
  set_config, server_error, servers_error, accepted, rejected, check, fill_context,
}
use llm_bridge.Config.Valid.{IsRunnable, Resolves, apply_env_overrides-Resolves}
use llm_bridge.Config.Accepted.{IsUsable, IsAcceptable, check-accepted_iff}
use llm_bridge.Config.Persist.{unset, RoundTrips, set_config-cases, load-set_config}
use llm_bridge.Base.{
  String, ◌≡◌, refl, sym, ap, subst, ◌⊎◌, inl, inr, Bool, true, Option, none, some, [], ◌∷◌, arith,
  eq_iff, str_eq, str_eq-cases, if◌then◌else◌,
}
use llm_bridge.Base.Int.{pos, negsuc}

atoi_tests :
    (atoi "42" ≡ some (pos 42))
    × (atoi "-7" ≡ some (negsuc 6))
    × (atoi "+0" ≡ some (pos 0))
    × (atoi "" ≡ none)
    × (atoi "4x" ≡ none)
    × (atoi "9223372036854775808" ≡ none)
    × (atoi "-9223372036854775808" ≡ some (negsuc 9223372036854775807))
unfolding atoi
atoi_tests = (refl, refl, refl, refl, refl, refl, refl)

-- A queue timeout that is negative, a strategy, and nothing else.
abbrev some_env : Env
some_env key =
    if str_eq key "QUEUE_TIMEOUT_SEC"
    then "-5"
    else if str_eq key "DRAIN_TIMEOUT_SEC"
    then "45"
    else if str_eq key "FALLBACK_STRATEGY"
    then "queue"
    else ""

overridden_tests :
    ((apply_env_overrides some_env default_config.global).queue_timeout_sec ≡ pos 30)
    × ((apply_env_overrides some_env default_config.global).drain_timeout_sec ≡ pos 45)
    × ((apply_env_overrides some_env default_config.global).fallback_strategy ≡ "queue")
unfolding apply_env_overrides env_int env_string atoi strategy_valid
overridden_tests = (refl, refl, refl)

apply_env_overrides-Resolves_example :
    Resolves some_env "DRAIN_TIMEOUT_SEC"
      (pos 30)
      (pos 30)
      (apply_env_overrides some_env default_config.global).drain_timeout_sec
apply_env_overrides-Resolves_example =
    (apply_env_overrides-Resolves some_env default_config.global).3

abbrev near : ServerConfig
near = record { url = "http://a"; distance = pos 1; max_concurrent_requests = pos 2 }

abbrev sample : Config
sample = record { global = default_config.global; servers = near ∷ [] }

abbrev far_off : Config
far_off = record sample { servers = record near { distance = pos 11 } ∷ [] }

String-discrete : Discrete String
String-discrete s t = elim (str_eq-cases s t) [ inl (_, e) ↦ yes e | inr (_, e) ↦ no e ]

ServerConfig-discrete : Discrete ServerConfig
ServerConfig-discrete = hlevel (ℕ_discrete, String-discrete)

GlobalConfig-discrete : Discrete GlobalConfig
GlobalConfig-discrete = hlevel (ℕ_discrete, String-discrete)

Config-discrete : Discrete Config
Config-discrete = hlevel (ServerConfig-discrete, GlobalConfig-discrete)

abbrev sample_text : {cfg : Config} → Dec (cfg ≡ sample) → Option String
sample_text (yes e) = some "sample"
sample_text (no e) = none

-- A codec for one configuration.
abbrev toy_yaml : Yaml
toy_yaml = record {
  unmarshal = λ text. if str_eq text "sample" then some sample else none;
  marshal = λ cfg. sample_text (Config-discrete cfg sample);
}

toy_marshal : toy_yaml.marshal sample ≡ some "sample"
toy_marshal = go (Config-discrete sample sample)
  where
    go : (d : Dec (sample ≡ sample)) → sample_text d ≡ some "sample"
    go (yes e) = refl
    go (no e) = absurd (e refl)

toy-RoundTrips : RoundTrips toy_yaml
toy-RoundTrips cfg text h = go (Config-discrete cfg sample) h
  where
    go : (d : Dec (cfg ≡ sample)) → sample_text d ≡ some text → toy_yaml.unmarshal text ≡ some cfg
    go (yes e) k =
        subst (λ t. toy_yaml.unmarshal t ≡ some cfg) (some-injective "sample" text k)
          (ap some (sym e))
    go (no e) k = cc

abbrev any_url : String → Bool
any_url url = true

near-IsUsable : IsUsable any_url near
near-IsUsable = record {
  named = λ e. ground (arith, eq_iff "http://a" "", e);
  url = refl;
  distance_min = omega arith;
  distance_max = omega arith;
  capacity = omega arith;
}

sample-IsAcceptable : IsAcceptable any_url sample
unfolding strategy_valid
sample-IsAcceptable = record {
  strategy = refl;
  usable = (near-IsUsable, tt);
  output = omega arith;
  buffer = omega arith;
}

check-accepted_iff_example : check any_url sample ≡ accepted sample
check-accepted_iff_example =
    (check-accepted_iff any_url sample sample).1 (sample-IsAcceptable, refl)

check_far : check any_url far_off ≡ rejected (distance_range 0)
unfolding check servers_error server_error strategy_valid
check_far = refl

abbrev blank : Store
blank = new_store none

set_config-cases_example :
    (IsAcceptable any_url far_off
      × ((set_config toy_yaml any_url written far_off blank).0.config ≡ fill_context far_off))
    ⊎ ((¬ IsAcceptable any_url far_off)
        × ((e : StoreError) × (set_config toy_yaml any_url written far_off blank
              ≡ (blank, some e))))
set_config-cases_example = set_config-cases toy_yaml any_url written far_off blank

sample-IsRunnable : IsRunnable sample.global
unfolding strategy_valid
sample-IsRunnable = record {
  strategy = refl;
  discovery = omega arith;
  request = omega arith;
  queue = omega arith;
  drain = omega arith;
  shutdown = omega arith;
  output = omega arith;
  buffer = omega arith;
  input = omega arith;
}

abbrev saved : Store
saved = record { config = sample; file = some "sample" }

set_sample : set_config toy_yaml any_url written sample blank ≡ (saved, none)
unfolding set_config save_locked
set_sample =
    rw
      (
        (check-accepted_iff any_url sample sample).1 (sample-IsAcceptable, refl),
        set_config,
        toy_marshal,
        save_locked,
      )
      refl

load-set_config_example : load toy_yaml unset readable written saved ≡ (saved, none)
load-set_config_example =
    load-set_config toy_yaml any_url sample blank saved written toy-RoundTrips sample-IsRunnable
      set_sample
