-- ===== src/Up/Config/Checked.antt =====
-- What internal/up/runner.go can rely on in a configuration that `loadConfig` returns.
use zerobased.Base.{
  String, ◌≡◌, refl, inl, inr, ◌||◌, ◌<>◌, if◌then◌else◌, true, false, not, some, List, [], ◌∷◌,
  All, arith, Bool-cases, Option-cases, ◌==◌, string_eq, int_eq, ℤ, pos, is_positive,
}
use zerobased.Base.Decimal.{show_int}
use zerobased.Base.Dict
use zerobased.Base.Dict.{Dict}
use zerobased.Zberr.Errors.{is_nil, new}
use zerobased.Up.Config.{
  ConfigFile, ComposeConfig, ProcessConfig, RouteConfig, enabled, config_invalid, is_empty,
  check_compose, check_processes, check_routes, check_config,
}

abbrev pub IsStartable : String × ProcessConfig → Type 0
IsStartable (_, p) = (is_empty p.command ≡ false) × ((p.readiness.kind == "file") ≡ true)

abbrev pub IsServable : Dict ProcessConfig → RouteConfig → Type 0
IsServable processes r =
    ((r.path == "") ≡ false)
    × (is_positive r.port ≡ true)
    × ((p : ProcessConfig) × (Dict.lookup r.process processes ≡ some p))

abbrev pub IsOwned : ComposeConfig → Type 0
IsOwned c = enabled c ≡ true → (is_empty c.files ≡ false) × ((c.ownership == "owned") ≡ true)

unfoldable pub IsComplete : ConfigFile → Type 0
IsComplete c =
    (c.version ≡ pos 1)
    × ((c.name == "") ≡ false)
    × ((c.profile == "") ≡ false)
    × IsOwned c.compose
    × (is_empty c.processes ≡ false)
    × (is_empty c.routes ≡ false)
    × All IsStartable c.processes
    × All (IsServable c.processes) c.routes

is_nil-config_invalid : (message : String) → is_nil (config_invalid message) ≡ false
unfolding new
is_nil-config_invalid message = refl

-- The first process of an accepted list passed its three checks.
check_processes_first :
    (dir name : String) (p : ProcessConfig) (rest : Dict ProcessConfig)
    → is_nil ((check_processes dir ((name, p) ∷ rest)).0) ≡ true
    → (is_empty p.command ≡ false)
      × ((p.readiness.kind == "file") ≡ true)
      × ((p.readiness.path == "") ≡ false)
unfolding check_processes
check_processes_first dir name p rest h = elim (Bool-cases (is_empty p.command)) [
  | inl bad ↦
      absurd
        (ground (arith, is_nil-config_invalid ("process " <> (name <> " command is required"))))
  | inr command ↦ elim (Bool-cases (p.readiness.kind == "file")) [
    | inr bad ↦ absurd (
        ground
          (arith, is_nil-config_invalid ("process " <> (name <> " readiness type must be file"))))
    | inl file ↦ elim (Bool-cases (p.readiness.path == "")) [
      | inl bad ↦ absurd (
          ground
            (arith, is_nil-config_invalid ("process " <> (name <> " readiness path is required"))))
      | inr path ↦ (command, file, path)
    ]
  ]
]

check_processes-IsStartable :
    (dir : String) (processes : Dict ProcessConfig)
    → is_nil ((check_processes dir processes).0) ≡ true
    → All IsStartable ((check_processes dir processes).1)
unfolding check_processes
check_processes-IsStartable dir [] h = tt
check_processes-IsStartable dir ((name, p) ∷ rest) h =
    let (command, file, path) = check_processes_first dir name p rest h in
    rw (command, file, path) ((command, file), check_processes-IsStartable dir rest (ground arith))

check_routes-IsServable :
    (processes : Dict ProcessConfig) (routes : List RouteConfig)
    → is_nil (check_routes processes routes) ≡ true
    → All (IsServable processes) routes
unfolding check_routes
check_routes-IsServable processes [] h = tt
check_routes-IsServable processes (r ∷ rs) h =
    elim (Bool-cases (r.path == "" || r.process == "" || not (is_positive r.port))) [
      | inl bad ↦ absurd (
          ground
            (arith, is_nil-config_invalid "route path, process, and positive port are required"))
      | inr fine ↦ elim (Option-cases (Dict.lookup r.process processes)) [
        | inl unknown ↦ absurd (
            ground
              (arith, is_nil-config_invalid ("route references unknown process " <> r.process)))
        | inr (p, known) ↦ (
          (ground arith, ground arith, (p, known)),
          check_routes-IsServable processes rs (ground arith),
        )
      ]
    ]

check_compose-IsOwned :
    (c : ComposeConfig) → is_nil ((check_compose c).0) ≡ true → IsOwned ((check_compose c).1)
unfolding check_compose string_eq
check_compose-IsOwned c h on = elim (Bool-cases (enabled c)) [
  | inr off ↦ absurd (ground arith)
  | inl was ↦ elim (Bool-cases (is_empty c.files)) [
    | inl empty ↦ absurd (ground (arith, is_nil-config_invalid "compose.files is required"))
    | inr files ↦ elim (Bool-cases (c.ownership == "")) [
      | inl blank ↦ rw (was, files, blank) (files, refl)
      | inr given ↦ elim (Bool-cases (c.ownership == "owned")) [
        | inl owned ↦ rw (was, files, given, owned) (files, owned)
        | inr other ↦ absurd (
            ground (arith, is_nil-config_invalid ("unsupported compose ownership " <> c.ownership)))
      ]
    ]
  ]
]

is_empty-check_processes :
    (dir : String) (processes : Dict ProcessConfig)
    → is_nil ((check_processes dir processes).0) ≡ true
    → is_empty processes ≡ false
    → is_empty ((check_processes dir processes).1) ≡ false
unfolding check_processes
is_empty-check_processes dir [] h filled = filled
is_empty-check_processes dir ((name, p) ∷ rest) h filled =
    let (command, file, path) = check_processes_first dir name p rest h in
    rw (command, file, path) refl

equal_of : {a b : ℤ} → (a == b) ≡ true → a ≡ b
equal_of same = ground arith

dev_default : (profile : String) → ((if profile == "" then "dev" else profile) == "") ≡ false
unfolding string_eq
dev_default profile = elim (Bool-cases (profile == "")) [
  | inl empty ↦ rw (empty) refl
  | inr given ↦ rw (given) given
]

pub check_config-IsComplete :
    (dir : String) (c : ConfigFile)
    → is_nil ((check_config dir c).0) ≡ true
    → IsComplete ((check_config dir c).1)
unfolding check_config IsComplete
check_config-IsComplete dir c h = elim (Bool-cases (c.version == pos 1)) [
  | inr other ↦ absurd (
      ground (
        arith,
        is_nil-config_invalid ("unsupported zerobased.yaml version " <> show_int c.version),
      ))
  | inl version ↦ elim (Bool-cases (c.name == "")) [
    | inl anonymous ↦ absurd (ground (arith, is_nil-config_invalid "name is required"))
    | inr named ↦ elim (Bool-cases (is_nil ((check_compose c.compose).0))) [
      | inr bad ↦ absurd (ground arith)
      | inl compose ↦ elim (Bool-cases (is_empty c.processes)) [
        | inl empty ↦
            absurd (ground (arith, is_nil-config_invalid "at least one process is required"))
        | inr processes ↦ elim (Bool-cases (is_empty c.routes)) [
          | inl empty ↦
              absurd (ground (arith, is_nil-config_invalid "at least one route is required"))
          | inr routes ↦ elim (Bool-cases (is_nil ((check_processes dir c.processes).0))) [
            | inr bad ↦ absurd (ground arith)
            | inl startable ↦
                elim (Bool-cases
                  (is_nil (check_routes ((check_processes dir c.processes).1) c.routes))) [
                    | inr bad ↦ absurd (ground arith)
                    | inl servable ↦
                        rw (version, named, compose, processes, routes, startable, servable)
                          (
                            equal_of version,
                            named,
                            dev_default c.profile,
                            check_compose-IsOwned c.compose compose,
                            is_empty-check_processes dir c.processes startable processes,
                            routes,
                            check_processes-IsStartable dir c.processes startable,
                            check_routes-IsServable ((check_processes dir c.processes).1) c.routes
                                servable,
                          )
                  ]
          ]
        ]
      ]
    ]
  ]
]
