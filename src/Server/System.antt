-- ===== src/Server/System.antt =====
-- server/server.go with the pool and the discovery that it shares: what requests, polls and the admin
-- handlers do to its state, in any order.
use llm_bridge.Config.Types.{ServerConfig, Config}
use llm_bridge.Config.Store.{Yaml, WriteOutcome}
use llm_bridge.Backend.Pool.{Conn, Context, acquire, release}
use llm_bridge.Discovery.State.{RawMessage, Reply, visit_server}
use llm_bridge.Metrics.Collector.{Reals}
use llm_bridge.Server.Admin.{
  ServerPatch, ServerState, handle_add_server, handle_update_server, handle_delete_server,
  handle_put_config,
}
use llm_bridge.Base.{String, Bool, Option, List, [], ◌∷◌}

module _ (reals : Reals) (yaml : Yaml) (parses : String → Bool)
    (model_id : RawMessage → Option String) where
  -- One operation on the state: an admin handler, the visit of a server in a poll, and what a request
  -- does to the pool.
  pub data Operation : Type 0 where
    adds : WriteOutcome → Option ServerConfig → Operation
    updates : WriteOutcome → String → ServerPatch → Operation
    deletes : WriteOutcome → String → Operation
    puts : WriteOutcome → Option Config → Operation
    visits : String → Context → Reply → Operation
    acquires : Context → String → Operation
    releases : Conn → Operation

  unfoldable pub operate : Operation → ServerState reals → ServerState reals
  operate (adds w body) s = (handle_add_server reals yaml parses w body s).0
  operate (updates w id u) s = (handle_update_server reals yaml parses w id u s).0
  operate (deletes w id) s = (handle_delete_server reals yaml parses w id s).0
  operate (puts w body) s = (handle_put_config reals yaml parses w body s).0
  operate (visits url ctx reply) s = record s {
    discovery = (visit_server model_id url ctx reply s.discovery).0;
  }
  operate (acquires ctx id) s = record s { pool = (acquire ctx id s.pool).0 }
  operate (releases c) s = record s { pool = release c s.pool }

  unfoldable pub operate_all : List Operation → ServerState reals → ServerState reals
  operate_all [] s = s
  operate_all (o ∷ os) s = operate_all os (operate o s)
