-- ===== src/Config/Types.antt =====
-- config/config.go: the records of the configuration and its default value.
use llm_bridge.Base.{String, Bool, ◌||◌, List, [], str_eq}
use llm_bridge.Base.Int.{ℤ, pos}

pub record ServerConfig : Type 0 where
  pub url : String
  pub distance : ℤ
  pub max_concurrent_requests : ℤ

pub record GlobalConfig : Type 0 where
  pub fallback_strategy : String
  pub discovery_interval_sec : ℤ
  pub request_timeout_sec : ℤ
  pub queue_timeout_sec : ℤ
  pub drain_timeout_sec : ℤ
  pub shutdown_timeout_sec : ℤ
  pub open_code_base_url : String
  pub open_code_context_output : ℤ
  pub open_code_context_buffer : ℤ
  pub open_code_context_input : ℤ

pub record Config : Type 0 where
  pub global : GlobalConfig
  pub servers : List ServerConfig

abbrev pub fallback_error : String
fallback_error = "error"

abbrev pub fallback_best_effort : String
fallback_best_effort = "best_effort"

abbrev pub fallback_queue : String
fallback_queue = "queue"

-- `FallbackStrategy.Valid`.
unfoldable pub strategy_valid : String → Bool
strategy_valid s =
    str_eq s fallback_error || (str_eq s fallback_best_effort || str_eq s fallback_queue)

abbrev pub default_config : Config
default_config = record {
  global = record {
    fallback_strategy = fallback_error;
    discovery_interval_sec = pos 15;
    request_timeout_sec = pos 60;
    queue_timeout_sec = pos 30;
    drain_timeout_sec = pos 30;
    shutdown_timeout_sec = pos 10;
    open_code_base_url = "";
    open_code_context_output = pos 8192;
    open_code_context_buffer = pos 1024;
    open_code_context_input = pos 0;
  };
  servers = [];
}
