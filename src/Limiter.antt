-- ===== src/Limiter.antt =====
-- The limiter of login attempts, internal/server/ratelimit.go.
pub mod Window
pub mod Burst
pub mod Later
mod Tests
