-- ===== src/Gateway.antt =====
-- The daemon over the Caddy runtime, as `ConfigFromEnv` of internal/daemon/start.go puts them together.
mod Agreement
mod Withdrawal
mod Collision
mod Holding
mod Orchestration
mod Bystanders
mod Wire
mod Session
mod LostAnswer
mod Lifecycle
mod Configuration
pub use Agreement.*
pub use Withdrawal.*
pub use Collision.*
pub use Holding.*
pub use Lifecycle.*
pub use Orchestration.*
pub use Bystanders.*
pub use Wire.*
pub use Session.*
pub use LostAnswer.*
unfoldable pub use Configuration.*
