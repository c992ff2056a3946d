-- ===== src/Up/Config.antt =====
-- internal/up/runner.go: the configuration and its checks. The YAML decoder is a parameter of `load_config`.
pub mod Checked
pub mod Rejected
use Prim.Native.Char.{Char}
use zerobased.Base.{
  ℕ, String, ◌<>◌, Bool, true, false, not, ◌&&◌, ◌||◌, Option, none, some, List, [], ◌∷◌, ◌==◌,
  string_eq, nat_eq, int_eq, if◌then◌else◌, ℤ, pos, is_positive,
}
use zerobased.Base.Dict
use zerobased.Base.Dict.{Dict}
use zerobased.Base.Decimal.{show_int}
use zerobased.Base.FilePath.{is_abs, join_path, base}
use zerobased.Base.Text.{has_prefix, split, trim_space}
use zerobased.Controlplane.{Route}
use zerobased.Zberr.Layer
use zerobased.Zberr.Code
use zerobased.Zberr.Errors.{Error, nil, plain, is_nil, caused, is}

pub record ComposeConfig : Type 0 where
  pub files : List String
  pub profiles : List String
  pub services : List String
  pub ownership : String

pub record ReadinessConfig : Type 0 where
  pub kind : String
  pub path : String

pub record ProcessConfig : Type 0 where
  pub command : List String
  pub readiness : ReadinessConfig

pub record RouteConfig : Type 0 where
  pub path : String
  pub process : String
  pub port : ℤ

pub record ConfigFile : Type 0 where
  pub version : ℤ
  pub name : String
  pub host : String
  pub profile : String
  pub compose : ComposeConfig
  pub processes : Dict ProcessConfig
  pub routes : List RouteConfig

-- `configFile{}`
abbrev pub empty_config : ConfigFile
empty_config = record {
  version = pos 0;
  name = "";
  host = "";
  profile = "";
  compose = record { files = []; profiles = []; services = []; ownership = "" };
  processes = [];
  routes = [];
}

abbrev pub is_empty {ℓ} : {A : Type ℓ} → List A → Bool
is_empty [] = true
is_empty (_ ∷ _) = false

unfoldable pub enabled : ComposeConfig → Bool
enabled c =
    not (is_empty c.files)
    || not (is_empty c.profiles)
    || not (is_empty c.services)
    || not (c.ownership == "")

abbrev pub config_error : Error → Error
config_error cause = caused Layer.stack_orchestrator Code.config_invalid cause

abbrev pub config_invalid : String → Error
config_invalid message = config_error (plain message)

-- `IsConfigInvalid`
unfoldable pub is_config_invalid : Error → Bool
is_config_invalid err = is err Layer.stack_orchestrator Code.config_invalid

abbrev newline : Char
newline = "\n"

unfoldable pub first_key_is_version : List String → Bool
first_key_is_version [] = false
first_key_is_version (line ∷ lines) =
    let trimmed = trim_space line in
    let rest = first_key_is_version lines in
    if trimmed == "" || has_prefix trimmed "#" then rest else has_prefix trimmed "version:"

unfoldable pub first_config_key_is_version : String → Bool
first_config_key_is_version content = first_key_is_version (split content newline)

-- The loop over the processes: each relative readiness path is put under the project's directory.
unfoldable pub check_processes : String → Dict ProcessConfig → Error × Dict ProcessConfig
check_processes dir [] = (nil, [])
check_processes dir ((name, p) ∷ rest) =
    if is_empty p.command
    then (config_invalid ("process " <> (name <> " command is required")), [])
    else if not (p.readiness.kind == "file")
    then (config_invalid ("process " <> (name <> " readiness type must be file")), [])
    else if p.readiness.path == ""
    then (config_invalid ("process " <> (name <> " readiness path is required")), [])
    else let path =
        if is_abs p.readiness.path
        then p.readiness.path
        else join_path (dir ∷ p.readiness.path ∷ []) in
      let (err, checked) = check_processes dir rest in
      (err, (name, record p { readiness = record p.readiness { path = path } }) ∷ checked)

unfoldable pub check_routes : Dict ProcessConfig → List RouteConfig → Error
check_routes processes [] = nil
check_routes processes (r ∷ rs) =
    let rest = check_routes processes rs in
    if r.path == "" || r.process == "" || not (is_positive r.port)
    then config_invalid "route path, process, and positive port are required"
    else elim (Dict.lookup r.process processes) [
      | none ↦ config_invalid ("route references unknown process " <> r.process)
      | some _ ↦ rest
    ]

-- The checks of `compose`, which set the default ownership.
unfoldable pub check_compose : ComposeConfig → Error × ComposeConfig
check_compose c =
    if not (enabled c)
    then (nil, c)
    else if is_empty c.files
    then (config_invalid "compose.files is required", c)
    else let c' = if c.ownership == "" then record c { ownership = "owned" } else c in
      if c'.ownership == "owned"
      then (nil, c')
      else (config_invalid ("unsupported compose ownership " <> c'.ownership), c')

-- `loadConfig` from the decoded file on.
unfoldable pub check_config : String → ConfigFile → Error × ConfigFile
check_config dir c =
    if not (c.version == pos 1)
    then (
      config_invalid ("unsupported zerobased.yaml version " <> show_int c.version),
      empty_config,
    )
    else if c.name == ""
    then (config_invalid "name is required", empty_config)
    else let host = if c.host == "" then base dir <> ".localhost" else c.host in
      let profile = if c.profile == "" then "dev" else c.profile in
      let (bad_compose, compose) = check_compose c.compose in
      if not (is_nil bad_compose)
      then (bad_compose, empty_config)
      else if is_empty c.processes
      then (config_invalid "at least one process is required", empty_config)
      else if is_empty c.routes
      then (config_invalid "at least one route is required", empty_config)
      else let (bad_process, processes) = check_processes dir c.processes in
        if not (is_nil bad_process)
        then (bad_process, empty_config)
        else let bad_route = check_routes processes c.routes in
          if not (is_nil bad_route) then (bad_route, empty_config) else (
            nil,
            record c { host = host; profile = profile; compose = compose; processes = processes },
          )

-- `read` is what `os.ReadFile` gives, and `decode` the decoder with `KnownFields`.
unfoldable pub load_config :
    (decode : String → Error × ConfigFile) → Error × String → String → Error × ConfigFile
load_config decode (err, content) dir =
    if not (is_nil err)
    then (config_error err, empty_config)
    else if not (first_config_key_is_version content)
    then (config_invalid "zerobased.yaml must start with version", empty_config)
    else let (bad, c) = decode content in
      if not (is_nil bad) then (config_error bad, empty_config) else check_config dir c

unfoldable pub route_claims : List RouteConfig → List Route
route_claims [] = []
route_claims (r ∷ rs) =
    record { path = r.path; process = r.process; port = r.port } ∷ route_claims rs
