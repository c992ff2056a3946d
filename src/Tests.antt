-- ===== src/Tests.antt =====
-- Runs of the model and the theorems at concrete inputs.
mod Samples
mod Errors
mod Daemon
mod Caddy
mod Root
mod Bootstrap
mod Startup
mod Generations
mod Admin
mod Compose
mod Lifecycle
mod Orchestration
mod Session
mod Up
