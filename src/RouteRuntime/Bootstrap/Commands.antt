-- ===== src/RouteRuntime/Bootstrap/Commands.antt =====
-- internal/route_runtime/docker_caddy.go: the commands that the operations of the runtime run.
use mathlib.Core.List.{append_assoc, append-nil}
use zerobased.Base.{
  ℕ, zero, suc, ◌≤◌, String, ◌≡◌, sym, ap, ◌∙◌, List, [], ◌∷◌, ◌++◌, arith, Bool-cases, inl, inr,
  string_eq,
}
use zerobased.Base.Dict.{Dict}
use zerobased.Base.Text.{Unicode}
use zerobased.Zberr.Errors.{Error, nil, is_nil}
use zerobased.Base.FilePath.{dir}
use zerobased.Controlplane.{Publication}
use zerobased.RouteRuntime.Render.{render_caddyfile}
use zerobased.RouteRuntime.Machine.{Machine}
use zerobased.RouteRuntime.Caddy.{
  DockerCaddy, write_config, reload, reload_from, reload_command, inspect_labels,
}

-- A machine that remembers the commands it has run; files and pauses are no commands.
pub record Journal (M : Machine) : Type 0 where
  pub commands : M.World → List (List String)
  pub mkdir_keeps : (path : String) (w : M.World) → commands ((M.mkdir_all path w).1) ≡ commands w
  pub write_keeps :
      (path s : String) (w : M.World) → commands ((M.write_file path s w).1) ≡ commands w
  pub pause_keeps : (w : M.World) → commands ((M.pause w).1) ≡ commands w
  pub run_adds :
      (args : List String) (w : M.World) → commands ((M.run args w).2) ≡ commands w ++ args ∷ []

abbrev pub copies : ℕ → List String → List (List String)
copies zero args = []
copies (suc n) args = args ∷ copies n args

abbrev pub inspect_command : DockerCaddy → List String
inspect_command c = "inspect" ∷ "-f" ∷ "{{ json .Config.Labels }}" ∷ c.container_name ∷ []

abbrev pub start_command : DockerCaddy → List String
start_command c = "start" ∷ c.container_name ∷ []

module _ (M : Machine) (J : Journal M) where
  reload_from-commands :
      (attempts : ℕ) (c : DockerCaddy) (last : Error) (w : M.World)
      → (n : ℕ) × (n ≤ attempts)
        × (J.commands ((reload_from M attempts c last w).1)
            ≡ J.commands w ++ copies n (reload_command M c))
  unfolding reload_from
  reload_from-commands zero c last w = (0, ground arith, sym (append-nil (J.commands w)))
  reload_from-commands (suc attempts) c last w =
      let (_, err, w₁) = M.run (reload_command M c) w in
      let (done, w₂) = M.pause w₁ in
      let (n, few, rest) = reload_from-commands attempts c err w₂ in
      elim (Bool-cases (is_nil err)) [
        | inl loaded ↦ (1, ground arith, rw (loaded) (J.run_adds (reload_command M c) w))
        | inr failed ↦ elim (Bool-cases (is_nil done)) [
          | inr over ↦ (
            1,
            ground arith,
            rw (failed, over) (J.pause_keeps w₁ ∙ J.run_adds (reload_command M c) w),
          )
          | inl waits ↦ (
            suc n,
            ground arith,
            rw (failed, waits)
                (rest
                  ∙ ap (λ (x : List (List String)). x ++ copies n (reload_command M c))
                      (J.pause_keeps w₁ ∙ J.run_adds (reload_command M c) w)
                  ∙ append_assoc (J.commands w) (reload_command M c ∷ [])
                      (copies n (reload_command M c))),
          )
        ]
      ]

module _ ⦃t : Unicode⦄ (M : Machine) (J : Journal M) where
  pub write_config-commands :
      (c : DockerCaddy) (publications : Dict Publication) (w : M.World)
      → J.commands ((write_config M c publications w).1) ≡ J.commands w
  unfolding write_config
  write_config-commands c publications w =
      let w₁ = (M.mkdir_all (dir c.config_path) w).1 in
      ground (
        arith,
        J.mkdir_keeps (dir c.config_path) w,
        J.write_keeps c.config_path ((render_caddyfile publications c.upstream_host).0) w₁,
      )

  pub inspect_labels-commands :
      (c : DockerCaddy) (w : M.World)
      → J.commands ((inspect_labels M c w).2) ≡ J.commands w ++ inspect_command c ∷ []
  unfolding inspect_labels
  inspect_labels-commands c w = ground (arith, J.run_adds (inspect_command c) w)

  pub reload-commands :
      (c : DockerCaddy) (w : M.World)
      → (n : ℕ) × (n ≤ 10)
        × (J.commands ((reload M c w).1) ≡ J.commands w ++ copies n (reload_command M c))
  unfolding reload
  reload-commands c w = reload_from-commands M J 10 c nil w
