-- ===== src/Up/Root.antt =====
-- internal/up/runner.go: `findProjectRoot`. Its loop takes fuel, one for a directory, and answers `none` when
-- it is spent. `filepath.Abs` and `os.Stat` are parameters.
pub mod Nearest
use zerobased.Base.{
  ℕ, zero, suc, String, ◌<>◌, not, Option, none, some, [], ◌∷◌, ◌==◌, string_eq, if◌then◌else◌,
}
use zerobased.Base.FilePath.{dir, join_path}
use zerobased.Zberr.Errors.{Error, nil, plain, is_nil}
use zerobased.Up.Config.{config_error}

abbrev pub config_path : String → String
config_path folder = join_path (folder ∷ "zerobased.yaml" ∷ [])

abbrev pub not_found : String → Error
not_found start = config_error (plain ("zerobased.yaml not found from " <> start))

module _ (stat : String → Error) where
  unfoldable pub climb : String → ℕ → String → Option (String × Error)
  climb start zero folder = none
  climb start (suc fuel) folder =
      let parent = dir folder in
      let rest = climb start fuel parent in
      if is_nil (stat (config_path folder))
      then some (folder, nil)
      else if parent == folder
      then some ("", not_found start)
      else rest

  unfoldable pub find_project_root :
      (absolute : String → Error × String) → ℕ → String → Option (String × Error)
  find_project_root absolute fuel start =
      let (err, folder) = absolute start in
      if not (is_nil err) then some ("", config_error err) else climb start fuel folder
