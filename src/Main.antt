-- ===== src/Main.antt =====
-- cmd/llm-bridge/main.go: what is built before the server starts, and the order in which it is taken
-- down. Signals, the listener and the steps of the goroutines are events.
pub mod Boot
pub mod Ready
pub mod Routing
pub mod Lifecycle
pub mod Undying
pub mod Shutdown
mod Tests
