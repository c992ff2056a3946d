-- ===== src/Cli.antt =====
-- cmd/zerobased/main.go. What a command prints and its exit code are its outcome; the environment's variables
-- and the signals are parameters.
pub mod Endings
use zerobased.Base.{
  ℕ, String, ◌<>◌, true, not, Option, none, some, List, [], ◌∷◌, ◌==◌, string_eq, pos,
  if◌then◌else◌,
}
use zerobased.Base.FilePath.{join_path}
use zerobased.Base.Text.{join}
use zerobased.Zberr.Errors.{Error, nil, wrap, is_nil, text}
use zerobased.Daemon.Startup.{Host, Hooks, StartResult, start, close}
use zerobased.Daemon.Startup
use zerobased.Up.Environment.{Environment}
use zerobased.Up.Run
use zerobased.Up.Command.{Files, run}

-- Every command prints to one of the two at most.
pub record Outcome : Type 0 where
  pub code : ℕ
  pub stdout : String
  pub stderr : String

-- os.Exit(1) after a message
abbrev pub fails : String → Outcome
fails message = record { code = 1; stdout = ""; stderr = message }

abbrev pub prints : String → Outcome
prints message = record { code = 0; stdout = message; stderr = "" }

-- The text below the version's line.
abbrev help_lines : List String
help_lines =
    "" ∷ "Explicit local dev stack orchestration." ∷ "" ∷ "Usage:"
    ∷ "  zerobased start      Start the machine-local control plane and route runtime."
    ∷ "  zerobased up         Run the current project from explicit zerobased.yaml."
    ∷ "  zerobased version    Print the zerobased version."
    ∷ "  zerobased help       Show this help." ∷ "" ∷ "zerobased.yaml v1:" ∷ "  version: 1"
    ∷ "  name: my-project" ∷ "  host: my-project.localhost" ∷ "  compose:" ∷ "    files:"
    ∷ "      - compose.yaml" ∷ "    services:" ∷ "      - postgres" ∷ "    ownership: owned"
    ∷ "  processes:" ∷ "    web:" ∷ "      command: [\"go\", \"run\", \"./cmd/web\"]"
    ∷ "      readiness:" ∷ "        type: file" ∷ "        path: .zerobased/web.ready" ∷ "  routes:"
    ∷ "    - path: /" ∷ "      process: web" ∷ "      port: 3000" ∷ "" ∷ "How it works:"
    ∷ "  start runs once per machine and owns local routing on 127.0.0.1:80."
    ∷ "  up starts only the Compose files and services declared in zerobased.yaml,"
    ∷ "  starts declared local processes, waits for readiness, publishes routes,"
    ∷ "  and stays foreground until Ctrl-C." ∷ "" ∷ "Rules:"
    ∷ "  zerobased.yaml must start with version: 1."
    ∷ "  Compose files are not discovered; list them under compose.files."
    ∷ "  Every process must declare file readiness with type and path."
    ∷ "  Owned Compose rejects container_name, host ports, host networking,"
    ∷ "  host namespace sharing, provider-managed services, external resources,"
    ∷ "  and custom resource names before containers start."
    ∷ "  With the default Docker Caddy router, local web processes must listen on"
    ∷ "  0.0.0.0, not only 127.0.0.1." ∷ []

unfoldable pub help_text : String → String
help_text version = "zerobased " <> (version <> ("\n" <> (join help_lines "\n" <> "\n")))

pub data Action : Type 0 where
  shows_version shows_help starts_daemon runs_project refuses : Action

-- The dispatch of `main`, on the arguments behind the program's name.
unfoldable pub dispatch : List String → Action
dispatch [] = refuses
dispatch (command ∷ _) =
    if command == "version"
    then shows_version
    else if command == "help"
    then shows_help
    else if command == "--help"
    then shows_help
    else if command == "-h"
    then shows_help
    else if command == "start"
    then starts_daemon
    else if command == "up"
    then runs_project
    else refuses

-- `resolveHome`, on $ZEROBASED_HOME and os.UserHomeDir
unfoldable pub resolve_home : String → Error × String → Error × String
resolve_home home (err, user_home) =
    if not (home == "")
    then (nil, home)
    else if not (is_nil err)
    then (wrap ("resolve home: " <> text err) err, "")
    else (nil, join_path (user_home ∷ ".zerobased" ∷ []))

module _ {World : Type 0} (H : Host World) (hooks : String → Hooks World)
    (until_signal : World → World) where
  abbrev ready_text : String → StartResult H → String
  ready_text home r =
      "zerobased daemon ready\nhome: "
      <> (home <> ("\nsocket: " <> (r.socket_path <> ("\nhealth: " <> (r.health_path <> "\n")))))

  -- `runStart`; `hooks` is what ConfigFromEnv gives for a home. The deferred `Close` runs when a signal has
  -- come, and its error is dropped.
  unfoldable pub run_start : Error × String → Startup.Session H → Outcome × Startup.Session H
  run_start (unresolved, home) s =
      let (err, r, s₁) = start H (record { home = home; hooks = hooks home }) s in
      let s₂ = (close H r (record s₁ { world = until_signal s₁.world })).1 in
      if not (is_nil unresolved)
      then (fails ("zerobased start: " <> (text unresolved <> "\n")), s)
      else if not (is_nil err)
      then (fails ("zerobased start: " <> (text err <> "\n")), s₁)
      else (prints (ready_text home r), s₂)

module _ (E : Environment) (F : Files) where
  abbrev up_failed : Error → Outcome
  up_failed err = fails ("zerobased up: " <> (text err <> "\n"))

  abbrev up_outcome : Error × Run.Session E → Outcome × Run.Session E
  up_outcome (err, s) = (if not (is_nil err) then up_failed err else prints "", s)

  -- `runUp`, whose control plane is the client on the home's socket; `none`: the run still waits.
  unfoldable pub run_up : ℕ → ℕ → Error × String → E.World → Option (Outcome × Run.Session E)
  run_up depth fuel (unresolved, home) w =
      let (lost, cwd) = F.getwd in
      if not (is_nil unresolved)
      then some (up_failed unresolved, record { world = w; trace = [] })
      else if not (is_nil lost)
      then some (
        fails ("zerobased up: get cwd: " <> (text lost <> "\n")),
        record { world = w; trace = [] },
      )
      else elim (run E F depth fuel
          (record { project_dir = cwd; has_control_plane = true; cleanup_timeout = pos 0 }) w) [
            | none ↦ none
            | some result ↦ some (up_outcome result)
          ]

-- `main`, on what `runStart` and `runUp` would come to.
unfoldable pub main : (version : String) (started ran : Outcome) → List String → Outcome
main version started ran args = elim (dispatch args) [
  | shows_version ↦ prints (version <> "\n")
  | shows_help ↦ prints (help_text version)
  | starts_daemon ↦ started
  | runs_project ↦ ran
  | refuses ↦ record { code = 1; stdout = help_text version; stderr = "" }
]
