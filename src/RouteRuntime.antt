-- ===== src/RouteRuntime.antt =====
-- internal/route_runtime: the runtimes that publish routes, a Caddy in a Docker container and a
-- remote admin URL.
pub mod Machine
pub mod Validation
pub mod Render
pub mod Caddy
pub mod Bootstrap
pub mod AdminUrl
pub mod Hosts
pub mod Publishing
pub mod Disk
pub mod Restoring
pub mod Reload
pub mod Order
