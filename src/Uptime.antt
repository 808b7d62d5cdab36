-- ===== src/Uptime.antt =====
-- Uptime checks: internal/server/uptime.go and internal/store/uptime.go.
pub mod Stored
pub mod Probe
pub mod Outages
mod Tests
