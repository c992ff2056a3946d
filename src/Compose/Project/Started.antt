-- ===== src/Compose/Project/Started.antt =====
-- internal/composebackend/backend.go: what a start brings up.
use zerobased.Base.{String, ◌≡◌, subst, true, some, List, inl, inr, arith, Option-cases, string_eq}
use zerobased.Base.Text.{Unicode}
use zerobased.Zberr.Errors.{Error, nil, is_nil}
use zerobased.Up.Environment.{Request}
use zerobased.Compose.Names.{project_name}
use zerobased.Compose.Policies.{RawComposePolicies, load_raw_policies}
use zerobased.Compose.Isolation.{ownership_owned, validate_isolation}
use zerobased.Compose.Isolation.Safety.{IsIsolated, isolation_lem}
use zerobased.Compose.Project.{
  Tools, with_defaults, resolve_files, select, inject_labels, check_and_label, load, start,
}

module _ ⦃t : Unicode⦄ (T : Tools) (request : Request) where
  abbrev directory : String
  directory = (T.absolute request.project_dir).1

  abbrev settings : Request
  settings = with_defaults T directory request

  -- The compose files, as they are found.
  abbrev pub found_files : List String
  found_files = (resolve_files T directory settings.files).1

  abbrev policies : Error × RawComposePolicies
  policies = load_raw_policies T.read_file T.unmarshal found_files

  abbrev name_of_project : String
  name_of_project = project_name T.sha256_hex settings.stack_name settings.profile directory

  -- The labelled project, under its name and directory.
  abbrev pub labelled : T.compose.Project → T.compose.Project
  labelled project =
      T.set_identity name_of_project directory
        ((inject_labels T project settings directory name_of_project).1)

  owned_settings : request.ownership ≡ ownership_owned → settings.ownership ≡ ownership_owned
  unfolding with_defaults
  owned_settings owned = ground arith

  check_and_label-accepts :
      (project p : T.compose.Project)
      → (check_and_label T directory name_of_project settings (policies.1) project).1 ≡ some p
      → (is_nil (validate_isolation T.compose project (policies.1) settings.ownership) ≡ true)
        × (p ≡ labelled project)
  unfolding check_and_label
  check_and_label-accepts project p h = (ground arith, ground arith)

  load-accepts :
      (p : T.compose.Project)
      → (load T request).1 ≡ some p
      → (is_nil (policies.0) ≡ true)
        × ((project : T.compose.Project) × ((check_and_label T directory name_of_project settings
                (policies.1)
                project).1
              ≡ some p))
  unfolding load
  load-accepts p h =
      elim (Option-cases ((select T directory name_of_project settings found_files).1)) [
        | inl none_ ↦ absurd (ground arith)
        | inr (project, e) ↦ (ground arith, (project, ground arith))
      ]

  start-loads :
      (w : T.World) (p : T.compose.Project)
      → (start T request w).1 ≡ some p
      → ((load T request).1 ≡ some p) × (start T request w ≡ (nil, some p, (T.up p w).1))
  unfolding start
  start-loads w p h = elim (Option-cases ((load T request).1)) [
    | inl none_ ↦ absurd (ground arith)
    | inr (q, e) ↦ (ground arith, ground arith)
  ]

  -- A start of an owned stack that gives a running stack has brought up the project of that stack: one that
  -- is isolated against the compose files that were found, with the program's labels.
  pub start-IsIsolated :
      (w : T.World) (p : T.compose.Project)
      → request.ownership ≡ ownership_owned
      → (start T request w).1 ≡ some p
      → (start T request w ≡ (nil, some p, (T.up p w).1))
        × ((project : T.compose.Project) × (p ≡ labelled project)
            × IsIsolated T.read_file T.unmarshal T.compose found_files project)
  start-IsIsolated w p owned h =
      let (loads, starts) = start-loads w p h in
      let (read, (project, checked)) = load-accepts p loads in
      let (valid, same) = check_and_label-accepts project p checked in
      (
        starts,
        (
          project,
          same,
          isolation_lem T.read_file T.unmarshal T.compose found_files project read (
              subst (λ o. is_nil (validate_isolation T.compose project (policies.1) o) ≡ true)
                (owned_settings owned) valid),
        ),
      )
