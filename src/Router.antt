-- ===== src/Router.antt =====
-- router/router.go and router/queue.go: how a request finds its server.
pub mod Select
pub mod Try
pub mod Groups
pub mod Best
pub mod Route
pub mod Chosen
pub mod Placed
pub mod Slots
pub mod Models
pub mod Rotation
pub mod Overrun
pub mod Queue
pub mod Loop
pub mod Once
pub mod Stopped
pub mod Answered
pub mod Waiter
pub mod Wait
pub mod Waited
mod Tests
mod QueueTests
mod WaitTests
mod LoopTests
