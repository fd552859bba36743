-- ===== src/Main/Boot.antt =====
-- cmd/llm-bridge/main.go: `envOrDefault` and `main` up to the start of the goroutines, with `New` of
-- server/server.go.
use llm_bridge.Config.Env.{Env}
use llm_bridge.Config.Store.{Yaml, ReadOutcome, WriteOutcome, StoreError, Store, load}
use llm_bridge.Backend.Pool.{Pool, new_pool}
use llm_bridge.Discovery.State.{Discovery, new_discovery, set_servers}
use llm_bridge.Metrics.Collector.{Reals, Collector, new_collector}
use llm_bridge.Server.Admin.{ServerState, urls_of, sync_servers}
use llm_bridge.Base.{String, Option, none, some, str_eq, if◌then◌else◌}

unfoldable pub env_or_default : Env → String → String → String
env_or_default env key default_val = if str_eq (env key) "" then default_val else env key

-- The flags: as given on the command line, or the variables, or the defaults.
pub record Flags : Type 0 where
  pub config_path : String
  pub port : String

abbrev pub given_or : Option String → String → String
given_or none default_val = default_val
given_or (some v) default_val = v

unfoldable pub parse_flags : Env → Option String → Option String → Flags
unfolding env_or_default
parse_flags env config port = record {
  config_path = given_or config (env_or_default env "CONFIG_PATH" "config.yaml");
  port = given_or port (env_or_default env "PORT" "8080");
}

module _ (reals : Reals) where
  -- `New` of the server: the pool, the discovery and the collector follow the configuration.
  unfoldable pub new_server : Store → Discovery → Pool → Collector reals → ServerState reals
  new_server store d p c =
      sync_servers reals (record { store = store; pool = p; discovery = d; metrics = some c })

  abbrev pub booted : Store × Option StoreError → Option (ServerState reals)
  booted (store, some e) = none
  booted (store, none) = some (
      new_server store (set_servers (urls_of reals store.config.servers) new_discovery) new_pool
        (new_collector reals))

  -- `main` up to the start of the goroutines; `none` is its exit with status 1.
  unfoldable pub boot : Yaml → Env → ReadOutcome → WriteOutcome → Store → Option (ServerState reals)
  boot yaml env r w s = booted (load yaml env r w s)
