-- ===== src/Compose.antt =====
-- internal/composebackend/backend.go.
pub mod Policies
pub mod Isolation
pub mod Names
pub mod Project
pub mod Docker
