-- ===== src/Config/Persist.antt =====
-- `Set` and the file: what is in memory and on disk after it, and what a later `Load` reads back
-- (config/config.go).
use llm_bridge.Config.Types.{GlobalConfig, Config}
use llm_bridge.Config.Env.{Env, env_int, env_string, apply_env_overrides}
use llm_bridge.Config.Store.{
  Yaml, readable, WriteOutcome, written, refused, StoreError, write_failed, Store, save_locked,
  save_locked-config, load, load_file, load_text, set_config, Checked, accepted, rejected, check,
  fill_defaults, fill_context,
}
use llm_bridge.Config.Accepted.{IsAcceptable, check-accepted_iff}
use llm_bridge.Config.Valid.{IsRunnable}
use llm_bridge.Config.Prepass.{apply_env_overrides-fill_defaults}
use llm_bridge.Base.{
  String, ◌≡◌, refl, sym, ap, subst, ◌∙◌, ◌⊎◌, inl, inr, Bool, none, some, arith, Option-cases,
}

-- No variable is set.
abbrev pub unset : Env
unset key = ""

-- What the yaml package gives back is what it was given.
abbrev pub RoundTrips : Yaml → Type 0
RoundTrips yaml =
    (cfg : Config) (text : String) → yaml.marshal cfg ≡ some text → yaml.unmarshal text ≡ some cfg

apply_env_overrides-unset : (g : GlobalConfig) → IsRunnable g → apply_env_overrides unset g ≡ g
unfolding apply_env_overrides env_int env_string
apply_env_overrides-unset g r = ground arith

reload_global :
    (cfg : Config)
    → IsRunnable cfg.global
    → apply_env_overrides unset (fill_defaults cfg.global) ≡ cfg.global
reload_global cfg r =
    apply_env_overrides-fill_defaults unset cfg.global ∙ apply_env_overrides-unset cfg.global r

Checked-cases :
    (c : Checked) → ((cfg : Config) × (c ≡ accepted cfg)) ⊎ ((e : StoreError) × (c ≡ rejected e))
Checked-cases (accepted cfg) = inl (cfg, refl)
Checked-cases (rejected e) = inr (e, refl)

-- A save without an error has written the configuration in memory.
save_locked_done :
    (yaml : Yaml) (s t : Store)
    → save_locked yaml written s ≡ (t, none)
    → (text : String) × (yaml.marshal s.config ≡ some text)
      × (t ≡ record { config = s.config; file = some text })
unfolding save_locked
save_locked_done yaml s t h = elim (Option-cases (yaml.marshal s.config)) [
  | inl e ↦ absurd (ground arith)
  | inr (text, e) ↦ (text, e, ground arith)
]

load_file_lem :
    (yaml : Yaml) (env : Env) (w : WriteOutcome) (s : Store) (text : String) (cfg : Config)
    → yaml.unmarshal text ≡ some cfg
    → load_file yaml env readable w (some text) s ≡ (
      record s {
        config = record cfg { global = apply_env_overrides env (fill_defaults cfg.global) };
      },
      none,
    )
unfolding load_file
load_file_lem yaml env w s text cfg e = rw (e, load_text) refl

module _ (yaml : Yaml) (parses : String → Bool) where
  -- `Set` takes exactly the acceptable configurations. Of one that it takes it holds the filled-in
  -- form in memory, also when the file could not be written; otherwise it reports an error and
  -- leaves memory and file as they were.
  pub set_config-cases :
      (w : WriteOutcome) (cfg : Config) (s : Store)
      → (IsAcceptable parses cfg × ((set_config yaml parses w cfg s).0.config ≡ fill_context cfg))
        ⊎ ((¬ IsAcceptable parses cfg)
            × ((e : StoreError) × (set_config yaml parses w cfg s ≡ (s, some e))))
  unfolding set_config
  set_config-cases w cfg s =
      let (to, from) = check-accepted_iff parses cfg (fill_context cfg) in
      elim (Checked-cases (check parses cfg)) [
        | inl (out, e) ↦
            let (a, same) = (check-accepted_iff parses cfg out).0 e in
            inl
              (a, rw (e, set_config) (save_locked-config yaml w (record s { config = out }) ∙ same))
        | inr (x, e) ↦ inr (λ a. cc (e, from (a, refl)), (x, rw (e, set_config)))
      ]

  -- Where the configuration is acceptable and has a text, and the file cannot be written, `Set`
  -- reports the failure of the write although the new configuration is already in force, and the old
  -- file stays.
  pub set_config_refused :
      (cfg : Config) (s : Store) (text : String)
      → IsAcceptable parses cfg
      → yaml.marshal (fill_context cfg) ≡ some text
      → set_config yaml parses refused cfg s
        ≡ (record s { config = fill_context cfg }, some write_failed)
  unfolding set_config save_locked
  set_config_refused cfg s text a m =
      rw
        ((check-accepted_iff parses cfg (fill_context cfg)).1 (a, refl), set_config, m, save_locked)
        refl

  set_config_written :
      (cfg : Config) (s : Store) (text : String)
      → IsAcceptable parses cfg
      → yaml.marshal (fill_context cfg) ≡ some text
      → set_config yaml parses written cfg s
        ≡ (record { config = fill_context cfg; file = some text }, none)
  unfolding set_config save_locked
  set_config_written cfg s text a m =
      rw
        ((check-accepted_iff parses cfg (fill_context cfg)).1 (a, refl), set_config, m, save_locked)
        refl

  -- A configuration that `Set` has written is the one that a later `Load` reads, if the yaml package
  -- reads back what it writes, no variable is set, and the configuration with its token counts
  -- filled in is runnable: a known strategy, positive timeouts and counts, and an input budget that
  -- is not negative.
  pub load-set_config :
      (cfg : Config) (s t : Store) (w : WriteOutcome)
      → RoundTrips yaml
      → IsRunnable (fill_context cfg).global
      → set_config yaml parses written cfg s ≡ (t, none)
      → load yaml unset readable w t ≡ (t, none)
  unfolding load set_config
  load-set_config cfg s t w rt r h = elim (Checked-cases (check parses cfg)) [
    | inr (x, e) ↦ absurd (cc (rw (e, set_config) at h))
    | inl (out, e) ↦
        let (_, same) = (check-accepted_iff parses cfg out).0 e in
        let (text, m, is_t) = save_locked_done yaml _ t (rw (e, set_config) at h) in
        rw is_t (
          load_file_lem yaml unset w _ text out (rt out text m)
          ∙ ap (λ g. (record { config = record out { global = g }; file = some text }, none))
              (reload_global out (subst (λ c. IsRunnable c.global) (sym same) r)))
  ]
