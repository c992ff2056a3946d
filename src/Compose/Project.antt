-- ===== src/Compose/Project.antt =====
-- internal/composebackend/backend.go: the project that a request loads, and its start and stop. compose-go
-- and Docker's API, the file system and SHA-256 are the record Tools.
pub mod Started
use zerobased.Base.{
  String, ◌<>◌, Bool, true, false, not, ◌&&◌, ◌||◌, Option, none, some, List, [], ◌∷◌, ◌==◌,
  string_eq, if◌then◌else◌, leb, ℤ,
}
use zerobased.Base.FilePath.{is_abs, join_path, base}
use zerobased.Base.Text.{Unicode, trim_space, join}
use zerobased.Compose.Names.{project_name}
use zerobased.Zberr.Layer
use zerobased.Zberr.Errors.{Error, nil, plain, is_nil, caused, critical, text}
use zerobased.Zberr.Code
use zerobased.Compose.Policies.{
  RawComposeFile, RawComposePolicies, load_raw_policies, model_invalid,
}
use zerobased.Compose.Isolation.{ComposeGo, ownership_owned, validate_isolation}
use zerobased.Up.Config.{is_empty}
use zerobased.Up.Environment.{Request}

abbrev pub lifecycle_failed : String → Error
lifecycle_failed message = caused Layer.compose_backend Code.lifecycle_failed (plain message)

-- composecli, the methods of types.Project and types.ServiceConfig, os, and Docker's Up and Down
pub record Tools : Type 1 where
  pub compose : ComposeGo
  pub Options : Type 0
  pub World : Type 0
  pub sha256_hex : String → String
  pub absolute : String → Error × String
  pub stat : String → Error
  pub read_file : String → Error × String
  pub unmarshal : String → Error × RawComposeFile
  -- the options of the files, the directory, the project's name and the profiles
  pub new_options : List String → String → String → List String → Error × Options
  pub load_project : Options → Error × compose.Project
  pub with_selected_services : List String → compose.Project → Error × compose.Project
  pub without_unnecessary : compose.Project → compose.Project
  -- project.Name, project.WorkingDir
  pub set_identity : String → String → compose.Project → compose.Project
  pub compose_files : compose.Project → List String
  pub transform_services :
      (String → compose.Service → compose.Service) → compose.Project → Error × compose.Project
  -- service.CustomLabels.Add, service.Labels[key] = value
  pub add_custom_label : String → String → compose.Service → compose.Service
  pub set_label : String → String → compose.Service → compose.Service
  pub project_label : String
  pub service_label : String
  pub version_label : String
  pub working_dir_label : String
  pub config_files_label : String
  pub oneoff_label : String
  pub compose_version : String
  -- newDefaultLifecycle
  pub lifecycle_error : Error
  pub up : compose.Project → World → Error × World
  pub down : compose.Project → World → Error × World

module _ ⦃t : Unicode⦄ (T : Tools) where
  -- The zero project of an answer that is an error is never looked at.
  unfoldable pub resolve_files : String → List String → Error × List String
  resolve_files dir [] = (nil, [])
  resolve_files dir (file ∷ files) =
      let path = if is_abs file then file else join_path (dir ∷ file ∷ []) in
      let (unresolved, abs) = T.absolute path in
      let missing = T.stat abs in
      let (err, rest) = resolve_files dir files in
      if trim_space file == ""
      then (model_invalid "compose file path is empty", [])
      else if not (is_nil unresolved)
      then (model_invalid ("resolve compose file " <> (file <> (": " <> text unresolved))), [])
      else if not (is_nil missing)
      then (model_invalid ("compose file " <> (file <> (": " <> text missing))), [])
      else if not (is_nil err)
      then (err, [])
      else (nil, abs ∷ rest)

  -- The transformation of a service: compose's own labels, then the program's.
  unfoldable pub label_service :
      Request → String → String → String → String → T.compose.Service → T.compose.Service
  label_service q dir project_name config_files name s =
      let s₁ = T.add_custom_label T.project_label project_name s in
      let s₂ = T.add_custom_label T.service_label name s₁ in
      let s₃ = T.add_custom_label T.version_label T.compose_version s₂ in
      let s₄ = T.add_custom_label T.working_dir_label dir s₃ in
      let s₅ = T.add_custom_label T.config_files_label config_files s₄ in
      let s₆ = T.add_custom_label T.oneoff_label "False" s₅ in
      let l₁ = T.set_label "dev.zerobased.project" project_name s₆ in
      let l₂ = T.set_label "dev.zerobased.stack" q.stack_name l₁ in
      let l₃ = T.set_label "dev.zerobased.profile" q.profile l₂ in
      let l₄ = T.set_label "dev.zerobased.session" q.session_id l₃ in
      let l₅ = T.set_label "dev.zerobased.ownership" q.ownership l₄ in
      let l₆ = T.set_label "dev.zerobased.project_root" dir l₅ in
      T.set_label "dev.zerobased.compose_backend" "true" l₆

  unfoldable pub inject_labels :
      T.compose.Project → Request → String → String → Error × T.compose.Project
  inject_labels project q dir project_name =
      T.transform_services (label_service q dir project_name (join (T.compose_files project) ","))
        project

  -- The defaults of a request's fields.
  unfoldable pub with_defaults : String → Request → Request
  with_defaults dir q = record q {
    ownership = if q.ownership == "" then ownership_owned else q.ownership;
    stack_name = if q.stack_name == "" then base dir else q.stack_name;
    profile = if q.profile == "" then "dev" else q.profile;
  }

  abbrev failed : Error → Error × Option T.compose.Project
  failed err = (err, none)

  -- The project as compose-go loads it, with the selected services and their resources.
  unfoldable pub select : String → String → Request → List String → Error × Option T.compose.Project
  select dir name q files =
      let (bad_options, options) = T.new_options files dir name q.compose_profiles in
      let (unloaded, loaded) = T.load_project options in
      let project = T.set_identity name dir loaded in
      let (unselected, selected) = T.with_selected_services q.services project in
      let kept = if is_empty q.services then project else selected in
      if not (is_nil bad_options)
      then failed (model_invalid (text bad_options))
      else if not (is_nil unloaded)
      then failed (model_invalid (text unloaded))
      else if not (is_empty q.services) && not (is_nil unselected)
      then failed (model_invalid (text unselected))
      else (nil, some (T.set_identity name dir (T.without_unnecessary kept)))

  -- The check of the selected project and its labels.
  unfoldable pub check_and_label :
      String
      → String
      → Request
      → RawComposePolicies
      → T.compose.Project
      → Error × Option T.compose.Project
  check_and_label dir name q policies project =
      let rejected = validate_isolation T.compose project policies q.ownership in
      let (unlabelled, labelled) = inject_labels project q dir name in
      if not (is_nil rejected)
      then failed rejected
      else if not (is_nil unlabelled)
      then failed (critical Layer.compose_backend unlabelled [])
      else (nil, some (T.set_identity name dir labelled))

  -- `Load`: the project, if there is no error.
  unfoldable pub load : Request → Error × Option T.compose.Project
  load request =
      let (unresolved, dir) = T.absolute request.project_dir in
      let q = with_defaults dir request in
      let (missing, files) = resolve_files dir q.files in
      let (unread, policies) = load_raw_policies T.read_file T.unmarshal files in
      let name = project_name T.sha256_hex q.stack_name q.profile dir in
      let (unloaded, selected) = select dir name q files in
      if is_empty request.files
      then failed (model_invalid "compose.files is required")
      else if not (is_nil unresolved)
      then failed (model_invalid ("resolve project dir: " <> text unresolved))
      else if not (is_nil missing)
      then failed missing
      else if not (is_nil unread)
      then failed unread
      else elim selected [
        | none ↦ failed unloaded
        | some project ↦ check_and_label dir name q policies project
      ]

  -- `Backend.Start`: the project of the running stack, if there is no error.
  unfoldable pub start : Request → T.World → Error × Option T.compose.Project × T.World
  start request w =
      let (err, loaded) = load request in
      elim loaded [
        | none ↦ (err, none, w)
        | some project ↦
            let (failure, w₁) = T.up project w in
            let (rollback, w₂) = T.down project w₁ in
            if not (is_nil T.lifecycle_error)
            then (lifecycle_failed (text T.lifecycle_error), none, w)
            else if is_nil failure
            then (nil, some project, w₁)
            else if not (is_nil rollback)
            then (
              lifecycle_failed (text failure <> ("; rollback failed: " <> text rollback)),
              none,
              w₂,
            )
            else (lifecycle_failed (text failure), none, w₂)
      ]

  -- `loadedStack.Stop`; `has_lifecycle` is `stack.lifecycle != nil`.
  unfoldable pub stop : (has_lifecycle : Bool) → T.compose.Project → T.World → Error × T.World
  stop has_lifecycle project w =
      let (err, w₁) = T.down project w in
      if not has_lifecycle
      then (nil, w)
      else if not (is_nil err)
      then (lifecycle_failed (text err), w₁)
      else (nil, w₁)
