-- ===== src/Server/Added.antt =====
-- How `handleAddServer` and `handleDeleteServer` of server/server.go end.
use llm_bridge.Config.Types.{ServerConfig, Config}
use llm_bridge.Config.Store.{fill_context}
use llm_bridge.Config.Accepted.{IsAcceptable}
use llm_bridge.Metrics.Collector.{Reals}
use llm_bridge.Server.Admin.{ServerState}
use llm_bridge.Server.Synced.{fresh}
use llm_bridge.Base.{
  ℕ, String, ◌≡◌, Bool, true, false, Option, none, some, [], ◌∷◌, ◌++◌, str_eq, any, lookup,
}

module _ (reals : Reals) (parses : String → Bool) where
  abbrev pub with_server : ServerConfig → Config → Config
  with_server sc cfg = record cfg { servers = cfg.servers ++ sc ∷ [] }

  abbrev pub is_listed : ServerConfig → ServerState reals → Bool
  is_listed sc s = any (λ sv. str_eq sv.url sc.url) s.store.config.servers

  -- How adding a server may end.
  pub data IsAdded (body : Option ServerConfig) (s : ServerState reals) (t : ServerState reals)
      (status : ℕ) : Type 0 where
    undecodable : body ≡ none → t ≡ s → status ≡ 400 → IsAdded body s t status
    conflict :
        (sc : ServerConfig)
        → body ≡ some sc
        → is_listed sc s ≡ true
        → t ≡ s
        → status ≡ 409
        → IsAdded body s t status
    not_acceptable :
        (sc : ServerConfig)
        → body ≡ some sc
        → is_listed sc s ≡ false
        → ¬ IsAcceptable parses (with_server sc s.store.config)
        → t ≡ s
        → status ≡ 400
        → IsAdded body s t status
    not_saved :
        (sc : ServerConfig)
        → body ≡ some sc
        → is_listed sc s ≡ false
        → IsAcceptable parses (with_server sc s.store.config)
        → t.store.config ≡ fill_context (with_server sc s.store.config)
        → t.pool ≡ s.pool
        → status ≡ 400
        → IsAdded body s t status
    added :
        (sc : ServerConfig)
        → body ≡ some sc
        → is_listed sc s ≡ false
        → IsAcceptable parses (with_server sc s.store.config)
        → t.store.config ≡ fill_context (with_server sc s.store.config)
        → lookup sc.url t.pool.clients ≡ some (fresh sc)
        → status ≡ 201
        → IsAdded body s t status
