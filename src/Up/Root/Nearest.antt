-- ===== src/Up/Root/Nearest.antt =====
-- internal/up/runner.go: the search for the project's directory finds the nearest that has a configuration.
use zerobased.Base.{
  ℕ, zero, suc, ◌<◌, String, ◌≡◌, refl, Bool, true, some, List, [], ◌∷◌, ◌++◌, length, All, arith,
  Bool-cases, inl, inr, ◌==◌, string_eq, if◌then◌else◌,
}
use zerobased.Base.FilePath.Laws.{
  IsElement, absolute, dir-absolute, dir_root, absolute_other, All-front,
}
use zerobased.Zberr.Errors.{Error, nil, is_nil}
use zerobased.Up.Root.{climb, find_project_root, config_path, not_found}

-- The elements of a path, from the last to the first, in their order.
abbrev pub ordered : List String → List String
ordered [] = []
ordered (p ∷ ps) = ordered ps ++ p ∷ []

same_text : (s : String) → (s == s) ≡ true
same_text s = ground arith

module _ (stat : String → Error) where
  abbrev pub has_config : List String → Bool
  has_config ps = is_nil (stat (config_path (absolute ps)))

  -- The longest of the paths of the first elements that has a configuration, given the last element first.
  unfoldable pub nearest : String → List String → String × Error
  nearest start [] = if has_config [] then (absolute [], nil) else ("", not_found start)
  nearest start (p ∷ ps) =
      let rest = nearest start ps in
      if has_config (ordered (p ∷ ps)) then (absolute (ordered (p ∷ ps)), nil) else rest

  climb-nearest :
      (start : String) (fuel : ℕ) (ps : List String)
      → All IsElement (ordered ps)
      → length ps < fuel
      → climb stat start fuel (absolute (ordered ps)) ≡ some (nearest start ps)
  unfolding climb nearest
  climb-nearest start zero ps h few = absurd (ground arith)
  climb-nearest start (suc fuel) [] h few = elim (Bool-cases (has_config [])) [
    | inl here ↦ rw (here) refl
    | inr absent ↦ rw (absent, dir_root, same_text (absolute [])) refl
  ]
  climb-nearest start (suc fuel) (p ∷ ps) h few =
      elim (Bool-cases (has_config (ordered (p ∷ ps)))) [
        | inl here ↦ rw (here) refl
        | inr absent ↦
            rw (absent, dir-absolute (ordered ps) p h, absolute_other (ordered ps) p h)
              (climb-nearest start fuel ps (All-front (ordered ps) p h) (ground arith))
      ]

  -- From an absolute path, the search ends with the nearest directory, from the path itself up to the root,
  -- that has a configuration, and with the error of its absence if there is none, given more fuel than the
  -- path has elements.
  pub find_project_root_lem :
      (to_absolute : String → Error × String) (start : String) (fuel : ℕ) (ps : List String)
      → All IsElement (ordered ps)
      → to_absolute start ≡ (nil, absolute (ordered ps))
      → length ps < fuel
      → find_project_root stat to_absolute fuel start ≡ some (nearest start ps)
  unfolding find_project_root
  find_project_root_lem to_absolute start fuel ps h resolved few =
      rw (resolved) (climb-nearest start fuel ps h few)
