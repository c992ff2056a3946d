-- ===== src/Up/Command/Effects.antt =====
-- internal/up/runner.go: what `Run` has done when it returns.
use zerobased.Base.{
  ℕ, zero, suc, String, ◌<>◌, ◌≡◌, ◌⊎◌, true, false, some, arith, Bool-cases, Option-cases, inl,
  inr, ◌==◌, string_eq, if◌then◌else◌, ap, refl, ◌∙◌,
}
use zerobased.Zberr.Errors.{Error, nil, plain, is, is_nil}
use zerobased.Zberr.Errors.Laws.{is_nil-eq}
use zerobased.Base.FilePath.{dir}
use zerobased.Up.Config.{load_config, enabled, is_config_invalid}
use zerobased.Up.Config.Checked.{IsComplete}
use zerobased.Up.Config.Rejected.{load_config-IsComplete, is_config_invalid-config_error}
use zerobased.Up.Root.{config_path, climb, find_project_root}
use zerobased.Up.Environment.{Environment}
use zerobased.Up.Run.{Plan, Session, claim_of, run_plan}
use zerobased.Up.Run.Cleanup.{Cleaned, run_plan-Cleaned}
use zerobased.Up.Command.{Files, Options, new_session_id, unclaimed, run_project, run_from, run}

-- The search finds a directory, or fails as a bad configuration does.
abbrev Found : String × Error → Type 0
Found (folder, err) = (is_nil err ≡ true) ⊎ (is_config_invalid err ≡ true)

climb-Found :
    (stat : String → Error) (start : String) (fuel : ℕ) (folder : String) (r : String × Error)
    → climb stat start fuel folder ≡ some r
    → Found r
unfolding climb
climb-Found stat start zero folder r h = ground arith
climb-Found stat start (suc fuel) folder r h = ground (
  arith,
  is_config_invalid-config_error (plain ("zerobased.yaml not found from " <> start)),
  climb-Found stat start fuel (dir folder) r,
)

pub invalid_not_nil : (err : Error) → is_config_invalid err ≡ true → is_nil err ≡ false
unfolding is_config_invalid is
invalid_not_nil err h = ground arith

find_project_root-Found :
    (F : Files) (depth : ℕ) (start : String) (r : String × Error)
    → find_project_root F.stat F.absolute depth start ≡ some r
    → Found r
unfolding find_project_root
find_project_root-Found F depth start r h =
    let (err, folder) = F.absolute start in
    elim (Bool-cases (is_nil err)) [
      | inr bad ↦ inr (ground (arith, is_config_invalid-config_error err))
      | inl good ↦ climb-Found F.stat start depth folder r (ground arith)
    ]

-- The plan of what a directory's zerobased.yaml says: it loads without an error.
abbrev pub LoadedFrom : Files → Options → String → Plan → Type 0
LoadedFrom F options folder p =
    (load_config F.decode (F.read_file (config_path folder)) folder ≡ (nil, p.config))
    × (p.project_dir ≡ folder)
    × (p.session_id ≡ new_session_id F)
    × (p.cleanup_timeout ≡ options.cleanup_timeout)

-- The plan is of the directory that the search from `start` finds.
abbrev pub FoundFrom : Files → ℕ → Options → String → Plan → Type 0
FoundFrom F depth options start p =
    (folder : String) × (find_project_root F.stat F.absolute depth start ≡ some (folder, nil))
    × LoadedFrom F options folder p

-- Where the search begins: the options' directory, or the working directory if they name none.
abbrev pub beginning : Files → Options → Error × String
beginning F options = if options.project_dir == "" then F.getwd else (nil, options.project_dir)

-- The plan is of the directory that the search finds from where it has to begin.
abbrev pub IsLoaded : Files → ℕ → Options → Plan → Type 0
IsLoaded F depth options p =
    (start : String) × (beginning F options ≡ (nil, start)) × FoundFrom F depth options start p

-- The plan was carried out: its configuration is complete, and the calls made for it were made up for.
abbrev pub CarriedOut : (E : Environment) → Plan → E.World → Session E → Type 0
CarriedOut E p w s =
    IsComplete p.config
    × Cleaned (is_nil ((E.claim (claim_of p) w).1)) (enabled p.config.compose) s.trace

module _ (E : Environment) (F : Files) where
  -- No call was made, and the configuration is at fault; or a plan with the property was carried out.
  abbrev pub Handled : (Plan → Type 0) → E.World → Error × Session E → Type 0
  Handled Planned w (err, s) =
      ((is_config_invalid err ≡ true) × (s ≡ unclaimed E F w))
      ⊎ ((p : Plan) × Planned p × CarriedOut E p w s)

  run_project-Handled :
      (fuel : ℕ) (options : Options) (folder : String) (w : E.World) (r : Error × Session E)
      → run_project E F fuel options folder w ≡ some r
      → Handled (LoadedFrom F options folder) w r
  unfolding run_project
  run_project-Handled fuel options folder w r h =
      let (bad, config) = load_config F.decode (F.read_file (config_path folder)) folder in
      let plan : Plan = record {
        config = config;
        project_dir = folder;
        session_id = new_session_id F;
        cleanup_timeout = options.cleanup_timeout;
      } in
      elim (load_config-IsComplete F.decode (F.read_file (config_path folder)) folder) [
        | inl (fine, complete) ↦
            let same : run_plan E fuel plan w ≡ some r = ground arith in
            inr (
              plan,
              (ap (λ e. (e, config)) (is_nil-eq bad fine), refl, refl, refl),
              (complete, run_plan-Cleaned E fuel plan w r same),
            )
        | inr invalid ↦ inl (
          ground (arith, invalid_not_nil bad invalid),
          ground (arith, invalid_not_nil bad invalid),
        )
      ]

  run_from-Handled :
      (depth fuel : ℕ) (options : Options) (start : String) (w : E.World) (r : Error × Session E)
      → run_from E F depth fuel options start w ≡ some r
      → Handled (FoundFrom F depth options start) w r
  unfolding run_from
  run_from-Handled depth fuel options start w r h =
      elim (Option-cases (find_project_root F.stat F.absolute depth start)) [
        | inl spent ↦ absurd (ground arith)
        | inr ((folder, missing), found) ↦ elim (Bool-cases (is_nil missing)) [
          | inl there ↦
              let at_folder = found ∙ ap (λ e. some (folder, e)) (is_nil-eq missing there) in
              elim (run_project-Handled fuel options folder w r (ground arith)) [
                | inl unmade ↦ inl unmade
                | inr (p, loaded, done) ↦ inr (p, (folder, at_folder, loaded), done)
              ]
          | inr lost ↦ elim (find_project_root-Found F depth start (folder, missing) found) [
            | inl there ↦ absurd (ground arith)
            | inr invalid ↦ inl (ground arith, ground arith)
          ]
        ]
      ]

  FoundFrom-IsLoaded :
      (depth : ℕ) (options : Options) (start : String) (w : E.World) (r : Error × Session E)
      → beginning F options ≡ (nil, start)
      → Handled (FoundFrom F depth options start) w r
      → Handled (IsLoaded F depth options) w r
  FoundFrom-IsLoaded depth options start w r begins (inl unmade) = inl unmade
  FoundFrom-IsLoaded depth options start w r begins (inr (p, found, done)) =
      inr (p, (start, begins, found), done)

  -- A run that returns has made no call to the outside and answers with an error that `IsConfigInvalid`
  -- recognises, or it has loaded a complete configuration, without an error, from zerobased.yaml in the
  -- directory that the search finds from the options' directory, or from the working directory if the options
  -- name none, and its calls for the plan of that configuration, directory and timeout are balanced: its claim is
  -- released, its processes are ended and its compose stack is stopped if they were made.
  pub run-Handled :
      (depth fuel : ℕ) (options : Options) (w : E.World) (r : Error × Session E)
      → run E F depth fuel options w ≡ some r
      → Handled (IsLoaded F depth options) w r
  unfolding run
  run-Handled depth fuel options w r h =
      let (lost, cwd) = F.getwd in
      elim (Bool-cases options.has_control_plane) [
        | inr no_plane ↦ inl (
          ground (arith, is_config_invalid-config_error (plain "control plane client is required")),
          ground arith,
        )
        | inl plane ↦ elim (Bool-cases (options.project_dir == "")) [
          | inr given ↦
              FoundFrom-IsLoaded depth options options.project_dir w r (rw given refl)
                (run_from-Handled depth fuel options options.project_dir w r (ground arith))
          | inl unset ↦ elim (Bool-cases (is_nil lost)) [
            | inr bad ↦ inl (ground (arith, is_config_invalid-config_error lost), ground arith)
            | inl good ↦
                FoundFrom-IsLoaded depth options cwd w r
                  (rw unset (ap (λ e. (e, cwd)) (is_nil-eq lost good)))
                  (run_from-Handled depth fuel options cwd w r (ground arith))
          ]
        ]
      ]
