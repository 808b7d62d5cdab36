-- ===== src/Policy.antt =====
-- internal/store/policies.go and `policyPatch` of internal/server/policy.go: an app's reliability
-- and rollout policy as it is posted, checked, stored and read back.
pub mod Steps
pub mod Weights
pub mod RoundTrip
pub mod Stored
pub mod Table
mod Tests
