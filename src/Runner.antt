-- ===== src/Runner.antt =====
-- The regression runner: cli/src/main.rs.
pub mod Bisect
pub mod Ci
pub mod Junit
pub mod Paths
pub mod Config
pub mod Setup
pub mod Fixtures
pub mod Launch
pub mod Diff
pub mod Main
