-- ===== src/Gateway/Configuration.antt =====
-- internal/daemon/start.go: `ConfigFromEnv`, which chooses the route runtime, and what `Start` finds on it.
use zerobased.Base.{String, none, some, ◌==◌, string_eq, if◌then◌else◌}
use zerobased.Base.Text.{Unicode}
use zerobased.Daemon.Startup.{Hooks}
use zerobased.RouteRuntime.Machine.{Machine}
use zerobased.RouteRuntime.Caddy.{DockerCaddy, new_docker_caddy, close}
use zerobased.RouteRuntime.Bootstrap.{bootstrap}

-- The two route runtimes, by their fields.
pub data Backend : Type 0 where
  admin_url : String → Backend
  docker_caddy : DockerCaddy → Backend

-- `env` is os.Getenv.
unfoldable pub config_from_env : (env : String → String) → String → Backend
config_from_env env home =
    if env "ZEROBASED_ROUTE_RUNTIME_BACKEND" == "admin-url"
    then admin_url (env "ZEROBASED_ROUTE_RUNTIME_ADMIN_URL")
    else docker_caddy (
        new_docker_caddy
          (record { home = home; container_name = ""; image = ""; upstream_host = "" }))

-- `AdminURL` has neither `Bootstrap` nor `Close`.
unfoldable pub hooks_of : ⦃t : Unicode⦄ → (M : Machine) → Backend → Hooks M.World
hooks_of M (admin_url url) = record { bootstrap = none; close = none }
hooks_of M (docker_caddy c) = record { bootstrap = some (bootstrap M c); close = some (close M c) }
