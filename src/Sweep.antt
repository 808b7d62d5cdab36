-- ===== src/Sweep.antt =====
-- Hyperparameter sweeps: internal/sweep/params.go and the decision of a tick in
-- internal/server/sweeps.go.
pub mod Params
pub mod Expand
pub mod Product
pub mod Odometer
pub mod Total
pub mod Grid
pub mod Parsed
pub mod Decide
pub mod Median
pub mod Finished
pub mod Lowest
pub mod Launching
pub mod Deciding
mod Tests
