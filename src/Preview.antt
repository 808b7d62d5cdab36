-- ===== src/Preview.antt =====
-- Preview environments: the names of internal/server/preview.go.
pub mod Branch
pub mod Naming
mod Tests
