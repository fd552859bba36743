-- ===== src/Config/Prepass.antt =====
-- `Load` fills in the defaults and then applies the environment, which fills them in again
-- (config/config.go).
use llm_bridge.Config.Env.{
  Env, env_int, env_string, apply_env_overrides, positive_or, valid_strategy_or_error,
}
use llm_bridge.Config.Types.{GlobalConfig}
use llm_bridge.Config.Store.{fill_defaults}
use llm_bridge.Base.{String, ◌≡◌, arith}
use llm_bridge.Base.Int.{ℤ}

positive_or-env_int :
    (env : Env) (key : String) (d v : ℤ)
    → positive_or d (env_int env key (positive_or d v)) ≡ positive_or d (env_int env key v)
unfolding env_int
positive_or-env_int env key d v = ground arith

valid_strategy_or_error-env_string :
    (env : Env) (key s : String)
    → valid_strategy_or_error (env_string env key (valid_strategy_or_error s))
      ≡ valid_strategy_or_error (env_string env key s)
unfolding env_string
valid_strategy_or_error-env_string env key s = ground arith

-- The defaults that `Load` fills in first make no difference: the overrides end in the same
-- configuration without them.
pub apply_env_overrides-fill_defaults :
    (env : Env) (g : GlobalConfig)
    → apply_env_overrides env (fill_defaults g) ≡ apply_env_overrides env g
unfolding apply_env_overrides fill_defaults
apply_env_overrides-fill_defaults env g =
    simp (positive_or-env_int, valid_strategy_or_error-env_string)
