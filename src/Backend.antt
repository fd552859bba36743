-- ===== src/Backend.antt =====
-- backend/backend.go: the pool of backend servers, with a count of the requests in flight to each.
-- The exchange of `ProxyRequest` with a server is a parameter; a context is seen by what its `Err`
-- method says.
pub mod Pool
pub mod Counts
pub mod Replaced
pub mod Headers
pub mod Proxy
pub mod Forwarded
mod Tests
mod ProxyTests
