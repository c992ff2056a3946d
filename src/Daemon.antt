-- ===== src/Daemon.antt =====
-- internal/daemon: the daemon's API server.
pub mod Runtime
pub mod Server
pub mod Handlers
pub mod Claims
pub mod Startup
pub mod Answers
pub mod Invariant
pub mod Generations
pub mod Interleaving
