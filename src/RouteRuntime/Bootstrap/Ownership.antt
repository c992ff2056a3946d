-- ===== src/RouteRuntime/Bootstrap/Ownership.antt =====
-- internal/route_runtime/docker_caddy.go: the commands of a bootstrap.
use mathlib.Core.List.{append_assoc, append-nil}
use zerobased.Base.{
  ℕ, ◌≤◌, String, ◌≡◌, ◌⊎◌, refl, sym, ap, ◌∙◌, Bool, true, false, ◌&&◌, List, [], ◌∷◌, ◌++◌, arith,
  Bool-cases, inl, inr, ◌==◌, string_eq,
}
use zerobased.Base.Dict.{Dict}
use zerobased.Base.Text.{Unicode}
use zerobased.Zberr.Errors.{new, Error, is_nil}
use zerobased.RouteRuntime.Machine.{Machine}
use zerobased.RouteRuntime.Caddy.{DockerCaddy, write_config, reload_command, inspect_labels}
use zerobased.RouteRuntime.Bootstrap.Commands.{
  Journal, copies, inspect_command, start_command, write_config-commands, inspect_labels-commands,
  reload-commands,
}
use zerobased.RouteRuntime.Bootstrap.{run_command, is_owned, is_at_home, adopt, bootstrap}

module _ ⦃t : Unicode⦄ (M : Machine) (J : Journal M) where
  -- The container that a bootstrap finds, with the error of a missing one.
  abbrev pub found : DockerCaddy → M.World → Dict String × Error × M.World
  found c w = inspect_labels M c ((write_config M c c.publications w).1)

  -- The container has the labels of this program and of this home.
  abbrev pub is_ours : DockerCaddy → M.World → Bool
  is_ours c w = is_owned ((found c w).0) && is_at_home c ((found c w).0)

  -- The commands of a bootstrap with its error: none; the inspection alone, of a container that is
  -- another's; the inspection and the attempt to run a new container, if the inspection failed or its labels
  -- could not be read; or the inspection, the start and at most ten reloads of a container that is ours.
  abbrev pub Respects : DockerCaddy → M.World → Error → List (List String) → Type 0
  Respects c w err ran =
      ((ran ≡ []) × (is_nil err ≡ false))
      ⊎ (((ran ≡ inspect_command c ∷ [])
            × (is_nil err ≡ false)
            × (is_nil ((found c w).1) ≡ true)
            × (is_ours c w ≡ false))
          ⊎ (((ran ≡ inspect_command c ∷ run_command c ∷ []) × (is_nil ((found c w).1) ≡ false))
              ⊎ ((n : ℕ) × (n ≤ 10)
                  × (ran ≡ inspect_command c ∷ start_command c ∷ copies n (reload_command M c))
                  × (is_nil ((found c w).1) ≡ true)
                  × (is_ours c w ≡ true))))

  adopt-refuses :
      (c : DockerCaddy) (labels : Dict String) (w : M.World)
      → (is_owned labels && is_at_home c labels) ≡ false
      → ((adopt M c labels w).1 ≡ w) × (is_nil ((adopt M c labels w).0) ≡ false)
  unfolding adopt new
  adopt-refuses c labels w foreign = (ground arith, ground arith)

  adopt-starts :
      (c : DockerCaddy) (labels : Dict String) (w : M.World)
      → (is_owned labels && is_at_home c labels) ≡ true
      → (n : ℕ) × (n ≤ 10)
        × (J.commands ((adopt M c labels w).1)
            ≡ J.commands w ++ start_command c ∷ copies n (reload_command M c))
  unfolding adopt
  adopt-starts c labels w ours =
      let (_, err, w₁) = M.run (start_command c) w in
      let owned : is_owned labels ≡ true = ground arith in
      let home : is_at_home c labels ≡ true = ground arith in
      let started = J.run_adds (start_command c) w in
      elim (Bool-cases (is_nil err)) [
        | inr failed ↦ (0, ground arith, rw (owned, home, failed) started)
        | inl ok ↦
            let (n, few, e) = reload-commands M J c w₁ in
            (
              n,
              few,
              rw (owned, home, ok)
                  (e
                    ∙ ap (λ (x : List (List String)). x ++ copies n (reload_command M c)) started
                    ∙ append_assoc (J.commands w) (start_command c ∷ [])
                        (copies n (reload_command M c))),
            )
      ]

  -- The commands so far, and those of an operation behind them.
  after_inspection :
      (c : DockerCaddy) (w : M.World) (next : List (List String)) (last : M.World)
      → J.commands last ≡ J.commands ((found c w).2) ++ next
      → J.commands last ≡ J.commands w ++ inspect_command c ∷ next
  after_inspection c w next last e =
      let (err, w₁) = write_config M c c.publications w in
      let inspected =
        inspect_labels-commands M J c w₁
        ∙ ap (λ (x : List (List String)). x ++ inspect_command c ∷ [])
            (write_config-commands M J c c.publications w) in
      e
      ∙ ap (λ (x : List (List String)). x ++ next) inspected
      ∙ append_assoc (J.commands w) (inspect_command c ∷ []) next

  abbrev Behaves : DockerCaddy → M.World → Type 0
  Behaves c w =
      (ran : List (List String)) × (J.commands ((bootstrap M c w).1) ≡ J.commands w ++ ran)
      × Respects c w ((bootstrap M c w).0) ran

  -- A bootstrap whose file is written.
  written-Behaves :
      (c : DockerCaddy) (w : M.World)
      → (c.home == "") ≡ false
      → is_nil (write_config M c c.publications w).0 ≡ true
      → Behaves c w
  unfolding bootstrap
  written-Behaves c w home written =
      let (labels, missing, w₂) = found c w in
      elim (Bool-cases (is_nil missing)) [
        | inr absent ↦ (
          inspect_command c ∷ run_command c ∷ [],
          after_inspection c w (run_command c ∷ []) ((bootstrap M c w).1)
              (ground (arith, J.run_adds (run_command c) w₂)),
          inr (inr (inl (refl, absent))),
        )
        | inl there ↦ elim (Bool-cases (is_ours c w)) [
          | inr foreign ↦
              let (same, failed) = adopt-refuses c labels w₂ foreign in
              (
                inspect_command c ∷ [],
                after_inspection c w [] ((bootstrap M c w).1)
                    (rw (home, written, there, same) (sym (append-nil (J.commands w₂)))),
                inr (inl (refl, rw (home, written, there) failed, there, foreign)),
              )
          | inl ours ↦
              let (n, few, e) = adopt-starts c labels w₂ ours in
              (
                inspect_command c ∷ start_command c ∷ copies n (reload_command M c),
                after_inspection c w (start_command c ∷ copies n (reload_command M c))
                    ((bootstrap M c w).1) (rw (home, written, there) e),
                inr (inr (inr (n, few, refl, there, ours))),
              )
        ]
      ]

  -- The commands that a bootstrap has run are: none, and then it fails; the inspection alone, whose labels are
  -- not those of this program and of this home, and then it fails; the inspection and the attempt to run a
  -- new container, if the inspection failed or its labels could not be read; or the inspection, the start and
  -- at most ten reloads of a container with the labels of this program and of this home.
  pub bootstrap-Respects :
      (c : DockerCaddy) (w : M.World)
      → (ran : List (List String)) × (J.commands ((bootstrap M c w).1) ≡ J.commands w ++ ran)
        × Respects c w ((bootstrap M c w).0) ran
  unfolding bootstrap new
  bootstrap-Respects c w =
      let nothing = sym (append-nil (J.commands w)) in
      elim (Bool-cases (c.home == "")) [
        | inl homeless ↦ ([], rw (homeless) nothing, inl (refl, rw (homeless) refl))
        | inr home ↦ elim (Bool-cases (is_nil (write_config M c c.publications w).0)) [
          | inr unwritten ↦ (
            [],
            rw (home, unwritten) (write_config-commands M J c c.publications w ∙ nothing),
            inl (refl, rw (home, unwritten) unwritten),
          )
          | inl written ↦ written-Behaves c w home written
        ]
      ]
