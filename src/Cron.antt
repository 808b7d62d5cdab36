-- ===== src/Cron.antt =====
-- internal/cronexpr/cronexpr.go: cron expressions of five fields, and the times that they match.
pub mod Expr
pub mod Fill
pub mod Wrap
pub mod Printed
mod Tests
