-- ===== src/Dotenv.antt =====
-- .env files: internal/server/dotenv.go.
pub mod Parse
pub mod RoundTrip
mod Tests
