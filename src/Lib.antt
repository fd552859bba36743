-- ===== src/Lib.antt =====
-- llm-bridge: an HTTP proxy that spreads the requests of an OpenAI-compatible API over several LLM
-- servers. It polls the servers for their models (discovery/), counts the requests in flight to each
-- (backend/), chooses a server for each request (router/), collects the servers' metrics (metrics/),
-- and keeps its configuration in a file that the environment overrides (config/). The handlers of
-- server/ join them.
--
-- How the parts interact. `Router.route` asks the discovery for the healthy servers of a model, the
-- pool for their configuration and load, and acquires a slot of the pool; the handler of the request
-- releases it. The polls write the discovery's maps. `Store.Set` changes the configuration, and the
-- server then adds its servers to the pool again.
--
-- The files:
-- - Base.antt: names shared by all; Base/Tests (Boolean tests), Base/Lists, Base/Maps (Go's maps with
--   text keys), Base/Int (Go's `int` and `int64`, with the wrap-around at 64 bits), Base/Text.
-- - Config/Types, Config/Env, Config/Atoi, Config/Store: config/config.go, from the records to `Load`
--   and `Set`. Proofs: Config/Valid, Config/Prepass, Config/Accepted, Config/Persist.
-- - Backend/Pool: backend/backend.go, `Pool` and its methods, `acquire` for `Acquire` and so on.
--   Proofs: Backend/Counts (a step relation on the pool and the connections held), Backend/Replaced.
--   Backend/Headers, Backend/Proxy: the headers of net/http, and `ProxyRequest`. Proofs:
--   Backend/Forwarded.
-- - Discovery/State: discovery/discovery.go, `discover` for `Discover`, `update_models` for
--   `updateModels`. Proofs: Discovery/Update, Discovery/Replies, Discovery/Aligned.
--   Discovery/Copies: `Models`, `ModelDetails`, `Healthy`. Discovery/Poller: `Start`, `Stop` and the
--   goroutine. Proofs: Discovery/Polled.
-- - Router/Select, Router/Best, Router/Route: router/router.go, the loops of `route` in their order.
--   Proofs: Router/Try, Router/Groups, Router/Placed, Router/Chosen, Router/Slots, Router/Rotation,
--   Router/Overrun; Router/Models has an instance of each parameter.
-- - Router/Queue: router/queue.go, the queue and a pass over it; Router/Waiter: one call of `enqueue` as
--   a step relation, against the passes; Router/Wait: the same with the pool. Proofs: Router/Answered,
--   Router/Waiter, Router/Waited. Router/Loop: `run`, `stop` and the calls beside them, as events on
--   the queue. Proofs: Router/Once, Router/Stopped.
-- - Metrics/Collector, Metrics/Parser, Metrics/Text: metrics/metrics.go, the polls and the reading of a
--   text. Proofs: Metrics/Covered, Metrics/Panics, Metrics/Parsed, Metrics/Words, Metrics/Printed,
--   Metrics/Lines. Metrics/Worker: `fetchOne`, `Start`, `Stop` and the goroutine. Proofs:
--   Metrics/Crashes, Metrics/Steady.
-- - Server/OpenCode, Server/Comments: server/opencode.go. Proofs: Server/Limits, Server/Stripped,
--   Server/Strings.
-- - Server/Proxy, Server/Relay: `handleOpenAIProxy` of server/server.go, up to the status and from the
--   response on. Proofs: Server/Proxied, Server/Unchanged. Server/Serve: the three endpoints with the
--   exchange. Proofs: Server/Served; Server/Queued for a request that waits.
-- - Server/Admin: `syncServers` and the handlers that change the configuration; Server/Ident: the ids
--   in their paths. Proofs: Server/Synced, Server/Added, Server/Refused, Server/Escaped.
--   Server/Listing, Server/Status: the handlers that only read, and the body of `handlePutConfig`.
--   Server/System: all of these in any order. Proofs: Server/Sane, Server/Sound.
-- - Server/Decimal, Server/Exporter: server/metrics_exporter.go and `handleMetrics`. Proofs:
--   Server/Exported.
-- - Main/Boot, Main/Lifecycle: cmd/llm-bridge/main.go, up to the start of the server and from there on.
--   Proofs: Main/Ready, Main/Routing; Main/Undying, Main/Shutdown.
-- - Tests modules: runs on concrete inputs, and the theorems applied to them.
--
-- Goroutines. Each is a function from an event to the next state, one event from a point where another
-- goroutine may come between to the next: the check before the visit of a server in a poll of the
-- discovery, what its exchange comes to, a round of the collector, a pass over the queue, a step of
-- `main`. What happens is a list of events, and what holds for every list holds for every
-- interleaving. Where a select has two cases that are ready, the event says which is taken.
--
-- How Go is read. A method that takes a lock for its whole body is a function from state to state. A
-- map is a dictionary, and a `range` over it visits the entries in the order of the dictionary; since
-- one map has many dictionaries, what holds for every dictionary holds for every order. A counter
-- and an `int` are integers with the bounds of 64 bits where the code computes with them. The
-- round-robin index is a natural number: it starts at 0, only grows by one from the last start, and
-- stays at most the number of servers. The loops are structural recursions on a list, or on the number
-- of rounds left; only the decimal print of a number has fuel, one more than the number.
--
-- Parameters: the yaml package, `url.Parse` and the text of a URL, the print of a float64,
-- `encoding/json`, the file system, the HTTP exchange with a server, `sort.Slice` (an ordered
-- permutation), and float64 (Router/Best names what is used of it: quotients with a positive divisor
-- are numbers, and `<` on numbers is a strict weak order).
--
-- A pass over the queue retries each item with what it sees of the discovery and the strategy at that
-- moment, which is a function of the item; that nothing is released to the pool during a pass is a
-- simplification, which Router/Wait does not make. Where `route` calls `enqueue`, it ends in `queued`
-- here, and Server/Proxy has what the wait comes to as an argument, which Server/Queued takes from
-- Router/Wait.
--
-- Not modelled: the table of routes and the page of the admin interface in server/, which chi and
-- net/http serve, and web/, which holds that page; a second `Start` of the collector, which no code
-- calls; and logging. A round of fetchAll is one step, so a handler changes the collector before it or
-- after it; that a handler writes the map during the read that takes no lock, which ends the program,
-- is a field of the poll, `is_raced`.
pub mod Base
pub mod Config
pub mod Backend
pub mod Discovery
pub mod Router
pub mod Metrics
pub mod Server
pub mod Main
