-- ===== src/Server.antt =====
-- server/: the handlers. What a handler sends is a value; net/http and encoding/json are parameters.
pub mod Comments
pub mod Stripped
pub mod Strings
pub mod OpenCode
pub mod Limits
pub mod Proxy
pub mod Proxied
pub mod Queued
pub mod Relay
pub mod Unchanged
pub mod Serve
pub mod Served
pub mod Admin
pub mod Synced
pub mod Added
pub mod Refused
pub mod Listing
pub mod Status
pub mod System
pub mod Sane
pub mod Sound
pub mod Ident
pub mod Escaped
pub mod Decimal
pub mod Exporter
pub mod Exported
mod Tests
mod ProxyTests
mod AdminTests
mod ListingTests
mod ServeTests
mod QueuedTests
mod ExportTests
