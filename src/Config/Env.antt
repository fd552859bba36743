-- ===== src/Config/Env.antt =====
-- config/config.go: `envInt`, `envString` and `applyEnvOverrides`. The environment is a function
-- that gives "" for a variable which is not set, as `os.Getenv` does.
use llm_bridge.Config.Atoi.{atoi}
use llm_bridge.Config.Types.{GlobalConfig, strategy_valid, fallback_error}
use llm_bridge.Base.{String, none, some, str_eq, if◌then◌else◌}
use llm_bridge.Base.Int.{ℤ, pos, ltb_ℤ, leb_ℤ}

abbrev pub Env : Type 0
Env = String → String

unfoldable pub env_int : Env → String → ℤ → ℤ
env_int env key default_val =
    if str_eq (env key) ""
    then default_val
    else elim (atoi (env key)) [ none ↦ default_val | some val ↦ val ]

unfoldable pub env_string : Env → String → String → String
env_string env key default_val = if str_eq (env key) "" then default_val else env key

-- `if v <= 0 { v = d }`.
abbrev pub positive_or : ℤ → ℤ → ℤ
positive_or d v = if leb_ℤ v (pos 0) then d else v

-- `if v < 0 { v = 0 }`.
abbrev pub nonnegative : ℤ → ℤ
nonnegative v = if ltb_ℤ v (pos 0) then pos 0 else v

abbrev pub valid_strategy_or_error : String → String
valid_strategy_or_error s = if strategy_valid s then s else fallback_error

unfoldable pub apply_env_overrides : Env → GlobalConfig → GlobalConfig
apply_env_overrides env g = record {
  fallback_strategy =
      valid_strategy_or_error (env_string env "FALLBACK_STRATEGY" g.fallback_strategy);
  discovery_interval_sec =
      positive_or (pos 15) (env_int env "DISCOVERY_INTERVAL_SEC" g.discovery_interval_sec);
  request_timeout_sec =
      positive_or (pos 60) (env_int env "REQUEST_TIMEOUT_SEC" g.request_timeout_sec);
  queue_timeout_sec = positive_or (pos 30) (env_int env "QUEUE_TIMEOUT_SEC" g.queue_timeout_sec);
  drain_timeout_sec = positive_or (pos 30) (env_int env "DRAIN_TIMEOUT_SEC" g.drain_timeout_sec);
  shutdown_timeout_sec =
      positive_or (pos 10) (env_int env "SHUTDOWN_TIMEOUT_SEC" g.shutdown_timeout_sec);
  open_code_base_url =
      if str_eq (env "OPENCODE_BASE_URL") "" then g.open_code_base_url else env "OPENCODE_BASE_URL";
  open_code_context_output =
      positive_or (pos 8192) (env_int env "OPENCODE_CONTEXT_OUTPUT" g.open_code_context_output);
  open_code_context_buffer =
      positive_or (pos 1024) (env_int env "OPENCODE_CONTEXT_BUFFER" g.open_code_context_buffer);
  open_code_context_input =
      nonnegative (env_int env "OPENCODE_CONTEXT_INPUT" g.open_code_context_input);
}
