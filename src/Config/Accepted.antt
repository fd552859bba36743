-- ===== src/Config/Accepted.antt =====
-- What `Set` accepts, and what a `Set` that fails leaves behind (config/config.go).
use llm_bridge.Config.Types.{ServerConfig, Config, strategy_valid}
use llm_bridge.Config.Store.{
  server_error, servers_error, accepted, rejected, check_context, check, fill_context,
  context_output_range, context_buffer_range,
}
use llm_bridge.Base.{
  ℕ, ◌+◌, String, ◌≡◌, refl, ◌≢◌, ◌↔◌, ◌⊎◌, inl, inr, Bool, true, none, List, [], ◌∷◌, arith,
  eq_iff, Option-cases, All,
}
use llm_bridge.Base.Int.{pos, ◌≤ℤ◌, ◌<ℤ◌}

-- What `Set` asks of a server.
pub record IsUsable (parses : String → Bool) (sv : ServerConfig) : Type 0 where
  pub named : sv.url ≢ ""
  pub url : parses sv.url ≡ true
  pub distance_min : pos 1 ≤ℤ sv.distance
  pub distance_max : sv.distance ≤ℤ pos 10
  pub capacity : pos 1 ≤ℤ sv.max_concurrent_requests

-- What `Set` asks of a configuration.
pub record IsAcceptable (parses : String → Bool) (cfg : Config) : Type 0 where
  pub strategy : strategy_valid cfg.global.fallback_strategy ≡ true
  pub usable : All (IsUsable parses) cfg.servers
  pub output : pos 0 ≤ℤ cfg.global.open_code_context_output
  pub buffer : pos 0 ≤ℤ cfg.global.open_code_context_buffer

module _ (parses : String → Bool) where
  server_error-none_iff :
      (i : ℕ) (sv : ServerConfig) → (server_error parses i sv ≡ none) ↔ IsUsable parses sv
  unfolding server_error
  server_error-none_iff i sv = (
    λ h. record {
      named = λ e. ground (arith, eq_iff sv.url "");
      url = ground arith;
      distance_min = ground arith;
      distance_max = ground arith;
      capacity = ground arith;
    },
    λ u. ground (arith, eq_iff sv.url "", u.named),
  )

  servers_error-none_iff :
      (i : ℕ) (svs : List ServerConfig)
      → (servers_error parses i svs ≡ none) ↔ All (IsUsable parses) svs
  unfolding servers_error
  servers_error-none_iff i [] = (λ _. tt, λ _. refl)
  servers_error-none_iff i (sv ∷ svs) =
      let (to, from) = servers_error-none_iff (i + 1) svs in
      let (to', from') = server_error-none_iff i sv in
      elim (Option-cases (server_error parses i sv)) [
        | inl e ↦ (λ h. (to' e, to (ground arith)), λ u. rw (from' u.0, servers_error) (from u.1))
        | inr (x, e) ↦ (λ h. absurd (ground arith), λ u. rw (from' u.0, servers_error) (from u.1))
      ]

  check_context-cases :
      (cfg : Config)
      → ((pos 0 ≤ℤ cfg.global.open_code_context_output)
          × (pos 0 ≤ℤ cfg.global.open_code_context_buffer)
          × (check_context cfg ≡ accepted (fill_context cfg)))
        ⊎ ((cfg.global.open_code_context_output <ℤ pos 0)
            × (check_context cfg ≡ rejected context_output_range))
        ⊎ ((pos 0 ≤ℤ cfg.global.open_code_context_output)
            × (cfg.global.open_code_context_buffer <ℤ pos 0)
            × (check_context cfg ≡ rejected context_buffer_range))
  unfolding check_context
  check_context-cases cfg = ground arith

  -- `check` accepts exactly the acceptable configurations, and fills in the token counts that are 0.
  pub check-accepted_iff :
      (cfg out : Config)
      → (check parses cfg ≡ accepted out) ↔ (IsAcceptable parses cfg × (out ≡ fill_context cfg))
  unfolding check
  check-accepted_iff cfg out =
      let (to, from) = servers_error-none_iff 0 cfg.servers in
      (
        λ h. elim (Option-cases (servers_error parses 0 cfg.servers)) [
          | inl e ↦ (
            record {
              strategy = ground (arith, check_context-cases cfg);
              usable = to e;
              output = ground (arith, check_context-cases cfg);
              buffer = ground (arith, check_context-cases cfg);
            },
            ground (arith, check_context-cases cfg),
          )
          | inr (x, e) ↦ absurd (ground arith)
        ],
        λ (a, e).
            ground (arith, from a.usable, check_context-cases cfg, a.strategy, a.output, a.buffer),
      )
