-- ===== src/Up/Config/Rejected.antt =====
-- How internal/up/runner.go rejects a configuration.
use zerobased.Base.{
  String, ◌≡◌, refl, true, List, [], ◌∷◌, inl, inr, ◌⊎◌, ◌<>◌, arith, Bool-cases, string_eq, int_eq,
}
use zerobased.Base.Decimal.{show_int}
use zerobased.Base.Dict.{Dict}
use zerobased.Zberr.Errors.{Error, is_nil, new, is, matches, plain}
use zerobased.Up.Config.{
  ConfigFile, ComposeConfig, ProcessConfig, RouteConfig, config_error, check_compose,
  check_processes, check_routes, check_config, load_config, first_config_key_is_version,
  is_config_invalid,
}
use zerobased.Up.Config.Checked.{IsComplete, check_config-IsComplete}

pub is_config_invalid-config_error : (cause : Error) → is_config_invalid (config_error cause) ≡ true
unfolding is_config_invalid new is matches string_eq
is_config_invalid-config_error cause = refl

abbrev Answer : Error → Type 0
Answer err = (is_nil err ≡ true) ⊎ (is_config_invalid err ≡ true)

check_compose-Answer : (c : ComposeConfig) → Answer ((check_compose c).0)
unfolding check_compose
check_compose-Answer c = ground (
  arith,
  is_config_invalid-config_error (plain "compose.files is required"),
  is_config_invalid-config_error (plain ("unsupported compose ownership " <> c.ownership)),
)

check_processes-Answer :
    (dir : String) (processes : Dict ProcessConfig) → Answer ((check_processes dir processes).0)
unfolding check_processes
check_processes-Answer dir [] = inl refl
check_processes-Answer dir ((name, p) ∷ rest) = ground (
  arith,
  is_config_invalid-config_error (plain ("process " <> (name <> " command is required"))),
  is_config_invalid-config_error (plain ("process " <> (name <> " readiness type must be file"))),
  is_config_invalid-config_error (plain ("process " <> (name <> " readiness path is required"))),
  check_processes-Answer dir rest,
)

check_routes-Answer :
    (processes : Dict ProcessConfig) (routes : List RouteConfig)
    → Answer (check_routes processes routes)
unfolding check_routes
check_routes-Answer processes [] = inl refl
check_routes-Answer processes (r ∷ rs) = ground (
  arith,
  is_config_invalid-config_error (plain "route path, process, and positive port are required"),
  is_config_invalid-config_error (plain ("route references unknown process " <> r.process)),
  check_routes-Answer processes rs,
)

check_config-Answer : (dir : String) (c : ConfigFile) → Answer ((check_config dir c).0)
unfolding check_config
check_config-Answer dir c = ground (
  arith,
  is_config_invalid-config_error
      (plain ("unsupported zerobased.yaml version " <> show_int c.version)),
  is_config_invalid-config_error (plain "name is required"),
  is_config_invalid-config_error (plain "at least one process is required"),
  is_config_invalid-config_error (plain "at least one route is required"),
  check_compose-Answer c.compose,
  check_processes-Answer dir c.processes,
  check_routes-Answer ((check_processes dir c.processes).1) c.routes,
)

-- `loadConfig` answers either without an error, and then with a complete configuration (version 1, a
-- name, a profile, an owned compose stack with files if any, at least one process and one route, each
-- process with a command and readiness of the kind `file`, each route with a path, a positive port and a process of
-- the configuration), or with the error that `IsConfigInvalid` recognises.
pub load_config-IsComplete :
    (decode : String → Error × ConfigFile) (file : Error × String) (dir : String)
    → ((is_nil ((load_config decode file dir).0) ≡ true)
        × IsComplete ((load_config decode file dir).1))
      ⊎ (is_config_invalid ((load_config decode file dir).0) ≡ true)
unfolding load_config
load_config-IsComplete decode (err, content) dir =
    let (bad, c) = decode content in
    elim (Bool-cases (is_nil err)) [
      | inr unread ↦ rw (unread) (inr (is_config_invalid-config_error err))
      | inl readable ↦ elim (Bool-cases (first_config_key_is_version content)) [
        | inr unversioned ↦
            rw (readable, unversioned)
              (inr
                (is_config_invalid-config_error (plain "zerobased.yaml must start with version")))
        | inl versioned ↦ elim (Bool-cases (is_nil bad)) [
          | inr undecoded ↦
              rw (readable, versioned, undecoded) (inr (is_config_invalid-config_error bad))
          | inl decoded ↦
              rw (readable, versioned, decoded)
                (elim (check_config-Answer dir c) [
                  | inl accepted ↦ inl (accepted, check_config-IsComplete dir c accepted)
                  | inr rejected ↦ inr rejected
                ])
        ]
      ]
    ]
