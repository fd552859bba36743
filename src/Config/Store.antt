-- ===== src/Config/Store.antt =====
-- config/config.go: `Store`, which holds the configuration and its file. A file is its text, or
-- `none` if it does not exist. The yaml package and `url.Parse` are parameters; what the operating
-- system answers to a read or a write is an argument of the call.
use llm_bridge.Config.Env.{Env, apply_env_overrides, positive_or, valid_strategy_or_error}
use llm_bridge.Config.Types.{ServerConfig, GlobalConfig, Config, default_config, strategy_valid}
use llm_bridge.Base.{
  ℕ, ◌+◌, String, ◌≡◌, Bool, not, ◌&&◌, ◌||◌, Option, none, some, List, [], ◌∷◌, arith, str_eq,
  if◌then◌else◌,
}
use llm_bridge.Base.Int.{ℤ, pos, ltb_ℤ, leb_ℤ}

-- gopkg.in/yaml.v3, at the type `Config`.
pub record Yaml : Type 0 where
  pub unmarshal : String → Option Config
  pub marshal : Config → Option String

-- Whether an existing file can be read.
pub data ReadOutcome : Type 0 where
  readable unreadable : ReadOutcome

-- `os.WriteFile`: done, refused, or stopped with this text left in the file.
pub data WriteOutcome : Type 0 where
  written refused : WriteOutcome
  torn : String → WriteOutcome

pub data StoreError : Type 0 where
  read_failed parse_failed marshal_failed write_failed : StoreError
  invalid_strategy : String → StoreError
  url_required invalid_url distance_range max_concurrent_range : ℕ → StoreError
  context_output_range context_buffer_range : StoreError

pub record Store : Type 0 where
  pub config : Config
  pub file : Option String

abbrev pub new_store : Option String → Store
new_store file = record { config = default_config; file = file }

write_file : WriteOutcome → String → Store → Store × Option StoreError
write_file written text s = (record s { file = some text }, none)
write_file refused text s = (s, some write_failed)
write_file (torn rest) text s = (record s { file = some rest }, some write_failed)

-- The defaults that `Load` fills in before it applies the environment.
unfoldable pub fill_defaults : GlobalConfig → GlobalConfig
fill_defaults g = record g {
  fallback_strategy = valid_strategy_or_error g.fallback_strategy;
  discovery_interval_sec = positive_or (pos 15) g.discovery_interval_sec;
  request_timeout_sec = positive_or (pos 60) g.request_timeout_sec;
  queue_timeout_sec = positive_or (pos 30) g.queue_timeout_sec;
  drain_timeout_sec = positive_or (pos 30) g.drain_timeout_sec;
  shutdown_timeout_sec = positive_or (pos 10) g.shutdown_timeout_sec;
  open_code_context_buffer = positive_or (pos 1024) g.open_code_context_buffer;
  open_code_context_output = positive_or (pos 8192) g.open_code_context_output;
}

module _ (yaml : Yaml) where
  unfoldable pub save_locked : WriteOutcome → Store → Store × Option StoreError
  unfolding write_file
  save_locked w s = elim (yaml.marshal s.config) [
    | none ↦ (s, some marshal_failed)
    | some text ↦ write_file w text s
  ]

  -- Saving leaves the configuration in memory alone.
  pub save_locked-config : (w : WriteOutcome) (s : Store) → (save_locked w s).0.config ≡ s.config
  unfolding save_locked
  save_locked-config written s = ground arith
  save_locked-config refused s = ground arith
  save_locked-config (torn rest) s = ground arith

  unfoldable pub load_text : Env → String → Store → Store × Option StoreError
  load_text env text s = elim (yaml.unmarshal text) [
    | none ↦ (s, some parse_failed)
    | some cfg ↦ (
      record s {
        config = record cfg { global = apply_env_overrides env (fill_defaults cfg.global) };
      },
      none,
    )
  ]

  unfoldable pub load_file :
      Env → ReadOutcome → WriteOutcome → Option String → Store → Store × Option StoreError
  unfolding load_text
  load_file env r w none s = save_locked w (record s { config = default_config })
  load_file env readable w (some text) s = load_text env text s
  load_file env unreadable w (some text) s = (s, some read_failed)

  unfoldable pub load : Env → ReadOutcome → WriteOutcome → Store → Store × Option StoreError
  unfolding load_file
  load env r w s = load_file env r w s.file s

-- The checks of `Set` on one server, at its position in the list.
unfoldable pub server_error : (String → Bool) → ℕ → ServerConfig → Option StoreError
server_error parses i sv =
    if str_eq sv.url ""
    then some (url_required i)
    else if not (parses sv.url)
    then some (invalid_url i)
    else if ltb_ℤ sv.distance (pos 1) || ltb_ℤ (pos 10) sv.distance
    then some (distance_range i)
    else if leb_ℤ sv.max_concurrent_requests (pos 0)
    then some (max_concurrent_range i)
    else none

unfoldable pub servers_error : (String → Bool) → ℕ → List ServerConfig → Option StoreError
servers_error parses i [] = none
servers_error parses i (sv ∷ svs) =
    let rest = servers_error parses (i + 1) svs in
    elim (server_error parses i sv) [ none ↦ rest | some e ↦ some e ]

pub data Checked : Type 0 where
  accepted : Config → Checked
  rejected : StoreError → Checked

abbrev pub default_if_zero : ℤ → ℤ → ℤ
default_if_zero d v = if leb_ℤ v (pos 0) && leb_ℤ (pos 0) v then d else v

-- The token counts that `Set` fills in where they are 0.
abbrev pub fill_context : Config → Config
fill_context cfg = record cfg {
  global = record (cfg.global) {
    open_code_context_output = default_if_zero (pos 8192) cfg.global.open_code_context_output;
    open_code_context_buffer = default_if_zero (pos 1024) cfg.global.open_code_context_buffer;
  };
}

unfoldable pub check_context : Config → Checked
check_context cfg =
    if ltb_ℤ (fill_context cfg).global.open_code_context_output (pos 0)
    then rejected context_output_range
    else if ltb_ℤ (fill_context cfg).global.open_code_context_buffer (pos 0)
    then rejected context_buffer_range
    else accepted (fill_context cfg)

-- What `Set` checks and fills in before it takes the configuration.
unfoldable pub check : (String → Bool) → Config → Checked
check parses cfg =
    if not (strategy_valid cfg.global.fallback_strategy)
    then rejected (invalid_strategy cfg.global.fallback_strategy)
    else elim (servers_error parses 0 cfg.servers) [
      | none ↦ check_context cfg
      | some e ↦ rejected e
    ]

module _ (yaml : Yaml) (parses : String → Bool) where
  take_checked : WriteOutcome → Store → Checked → Store × Option StoreError
  take_checked w s (accepted cfg) = save_locked yaml w (record s { config = cfg })
  take_checked w s (rejected e) = (s, some e)

  -- `Store.Set`.
  unfoldable pub set_config : WriteOutcome → Config → Store → Store × Option StoreError
  unfolding take_checked
  set_config w cfg s = take_checked w s (check parses cfg)
