-- ===== src/Pipeline.antt =====
-- internal/pipeline/compile.go: the compiler of pipeline.yaml, and the tick decision over a
-- compiled pipeline in internal/server/pipelines.go.
pub mod Step
pub mod Rules
pub mod Graph
pub mod Needed
pub mod Whites
pub mod Counts
pub mod Cycle
pub mod Upstream
pub mod Kahn
pub mod Compile
pub mod Artifacts
pub mod Outputs
pub mod Tick
pub mod Searching
pub mod Dependents
pub mod Downstream
pub mod Ticking
mod Tests
mod TickTests
