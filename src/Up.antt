-- ===== src/Up.antt =====
-- internal/up/runner.go: the run of a project.
pub mod Config
pub mod Environment
pub mod Processes
pub mod Run
pub mod Root
pub mod Command
