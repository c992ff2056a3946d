-- ===== src/Up/Command.antt =====
-- internal/up/runner.go: `Run` from its options on. `os.Getwd`, `filepath.Abs`, `os.Stat`, `os.ReadFile`, the
-- YAML decoder and the random source are the record Files.
pub mod Effects
use zerobased.Base.{ℕ, String, Bool, not, Option, none, some, [], ℤ, ◌==◌, string_eq, if◌then◌else◌}
use zerobased.Zberr.Errors.{Error, is_nil}
use zerobased.Up.Config.{ConfigFile, config_error, config_invalid, load_config}
use zerobased.Up.Root.{config_path, find_project_root}
use zerobased.Up.Environment.{Environment}
use zerobased.Up.Run.{Plan, Session, run_plan}

pub record Files : Type 0 where
  pub getwd : Error × String
  pub absolute : String → Error × String
  pub stat : String → Error
  pub read_file : String → Error × String
  pub decode : String → Error × ConfigFile
  -- rand.Read with hex.EncodeToString, and time.Now().UnixNano() in decimal
  pub random_hex : Error × String
  pub nanoseconds : String

-- `ComposeBackend` and `ReadinessTimeout` are the environment's.
pub record Options : Type 0 where
  pub project_dir : String
  -- options.ControlPlane != nil
  pub has_control_plane : Bool
  pub cleanup_timeout : ℤ

-- `newSessionID`
unfoldable pub new_session_id : Files → String
new_session_id F =
    let (err, token) = F.random_hex in if not (is_nil err) then F.nanoseconds else token

module _ (E : Environment) (F : Files) where
  abbrev pub unclaimed : E.World → Session E
  unclaimed w = record { world = w; trace = [] }

  -- From the project's directory on.
  unfoldable pub run_project : ℕ → Options → String → E.World → Option (Error × Session E)
  run_project fuel options folder w =
      let (bad, config) = load_config F.decode (F.read_file (config_path folder)) folder in
      let plan : Plan = record {
        config = config;
        project_dir = folder;
        session_id = new_session_id F;
        cleanup_timeout = options.cleanup_timeout;
      } in
      if not (is_nil bad) then some (bad, unclaimed w) else run_plan E fuel plan w

  -- From the directory where the search begins on. `depth` is the search's fuel.
  unfoldable pub run_from : ℕ → ℕ → Options → String → E.World → Option (Error × Session E)
  run_from depth fuel options start w = elim (find_project_root F.stat F.absolute depth start) [
    | none ↦ none
    | some (folder, missing) ↦
        if not (is_nil missing)
        then some (missing, unclaimed w)
        else run_project fuel options folder w
  ]

  unfoldable pub run : ℕ → ℕ → Options → E.World → Option (Error × Session E)
  run depth fuel options w =
      let (lost, cwd) = F.getwd in
      if not options.has_control_plane
      then some (config_invalid "control plane client is required", unclaimed w)
      else if not (options.project_dir == "")
      then run_from depth fuel options options.project_dir w
      else if not (is_nil lost)
      then some (config_error lost, unclaimed w)
      else run_from depth fuel options cwd w
