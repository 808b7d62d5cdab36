-- ===== src/Monitor.antt =====
-- The live metrics of internal/server/monitor.go: the rings of samples, the recording of a tick, and
-- the check for apps that crash in a loop.
pub mod Ring
pub mod Recorder
pub mod Crash
pub mod Recent
pub mod Charts
pub mod Alerts
mod Tests
