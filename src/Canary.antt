-- ===== src/Canary.antt =====
-- Canary and blue-green deploys: internal/store/rollouts.go, the rows of
-- internal/store/deployments.go and internal/store/policies.go that they use,
-- internal/server/canary.go, internal/server/rolloutgate.go and internal/server/rollback.go.
pub mod Rows
pub mod Deployments
pub mod Rollouts
pub mod World
pub mod Sizes
pub mod Handlers
pub mod Gate
pub mod Stepping
pub mod Views
pub mod Phases
pub mod Aborting
pub mod Requests
pub mod Turns
pub mod Promotion
pub mod Gating
pub mod Sizing
pub mod RollingBack
mod Tests
