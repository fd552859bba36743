-- ===== src/Config.antt =====
-- config/config.go: the configuration's types, its defaults and the environment's overrides.
-- Go's `int` is ℤ here; a strategy is the text that the file holds.
mod Atoi
pub mod Env
mod Tests
pub mod Valid
pub mod Prepass
pub mod Accepted
pub mod Persist
pub mod Store
pub mod Types
