-- ===== src/Kube.antt =====
-- internal/kube/rollout.go and internal/kube/drain.go: what the server reads of a Deployment's
-- rollout, the verdict on a sample, and the drain of a node.
pub mod Judge
pub mod Signals
pub mod Verdicts
pub mod Status
pub mod Newest
pub mod Drain
pub mod Draining
pub mod Evictions
mod Tests
