-- ===== src/Metrics.antt =====
-- metrics/metrics.go: the collector of the servers' metrics and the parser of their text. Go's float64,
-- `time.Time.Sub`, `strconv.ParseFloat` and the HTTP exchange are parameters.
pub mod Collector
pub mod Covered
pub mod Panics
pub mod Parser
pub mod Parsed
pub mod Text
pub mod Words
pub mod Printed
pub mod Lines
pub mod Worker
pub mod Crashes
pub mod Steady
mod Tests
mod WorkerTests
