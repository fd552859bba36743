-- ===== src/Discovery.antt =====
-- discovery/discovery.go: which server has which model, and which server answers. The HTTP exchange
-- and the JSON decoder are parameters: a visit of a server is what the exchange with it came to. Go's
-- maps are dictionaries; a `range` visits the entries in the dictionary's order, which is any order,
-- since a map has many dictionaries.
pub mod State
pub mod Copies
pub mod Update
pub mod Replies
pub mod Aligned
pub mod Poller
pub mod Polled
pub use State.*
mod Tests
mod PollerTests
