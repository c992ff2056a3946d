-- ===== src/Compose/Docker.antt =====
-- internal/composebackend/docker_lifecycle.go: the lifecycle that brings a project up and down by Docker Compose.
-- Docker's CLI and the service of compose's API are the record Docker; a zero value that comes with an error is
-- never looked at.
pub mod RollBack
use zerobased.Base.{String, Bool, true, not, List, if◌then◌else◌}
use zerobased.Zberr.Errors.{Error, nil, is_nil}
use zerobased.Compose.Isolation.{ComposeGo}
use zerobased.Compose.Project.{Tools}

-- The options of compose's API, as far as the program sets them.
pub record CreateOptions : Type 0 where
  pub services : List String
  pub remove_orphans : Bool

pub record StartOptions (Project : Type 0) : Type 0 where
  pub project : Project
  pub services : List String

pub record UpOptions (Project : Type 0) : Type 0 where
  pub create : CreateOptions
  pub start : StartOptions Project

pub record DownOptions (Project : Type 0) : Type 0 where
  pub project : Project
  pub remove_orphans : Bool

pub record Docker (Project : Type 0) : Type 1 where
  pub Cli : Type 0
  pub Service : Type 0
  pub World : Type 0
  -- command.NewDockerCli, dockerCLI.Initialize, composepkg.NewComposeService
  pub new_docker_cli : Error × Cli
  pub initialize : Cli → Error × Cli
  pub new_compose_service : Cli → Error × Service
  -- project.Name
  pub name : Project → String
  pub service_up : Service → Project → UpOptions Project → World → Error × World
  pub service_down : Service → String → DownOptions Project → World → Error × World

module _ (G : ComposeGo) (D : Docker G.Project) where
  -- `newDefaultLifecycle`
  unfoldable pub new_default_lifecycle : Error × D.Service
  new_default_lifecycle =
      let (err, cli) = D.new_docker_cli in
      let (uninitialized, ready) = D.initialize cli in
      let (failed, service) = D.new_compose_service ready in
      if not (is_nil err)
      then (err, service)
      else if not (is_nil uninitialized)
      then (uninitialized, service)
      else if not (is_nil failed)
      then (failed, service)
      else (nil, service)

  -- `dockerLifecycle.Up`
  unfoldable pub up : D.Service → G.Project → D.World → Error × D.World
  up service project w =
      let services = G.service_names project in
      D.service_up service project
        (record {
          create = record { services = services; remove_orphans = true };
          start = record { project = project; services = services };
        })
        w

  -- `dockerLifecycle.Down`
  unfoldable pub down : D.Service → G.Project → D.World → Error × D.World
  down service project w =
      D.service_down service (D.name project) (record { project = project; remove_orphans = true })
        w

-- The tools of a backend with the default lifecycle.
abbrev pub over_docker : (T : Tools) → Docker T.compose.Project → Tools
over_docker T D = record T {
  World = D.World;
  lifecycle_error = (new_default_lifecycle T.compose D).0;
  up = up T.compose D ((new_default_lifecycle T.compose D).1);
  down = down T.compose D ((new_default_lifecycle T.compose D).1);
}
