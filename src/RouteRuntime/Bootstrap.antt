-- ===== src/RouteRuntime/Bootstrap.antt =====
-- internal/route_runtime/docker_caddy.go: `Bootstrap`, which adopts the container that is there or runs
-- a new one.
pub mod Commands
pub mod Ownership
use zerobased.Base.{
  String, ◌<>◌, Bool, not, ◌&&◌, none, some, List, [], ◌∷◌, ◌==◌, string_eq, if◌then◌else◌,
}
use zerobased.Base.Dict
use zerobased.Base.Dict.{Dict}
use zerobased.Base.Text.{Unicode}
use zerobased.Zberr.Errors.{Error, nil, plain, is_nil}
use zerobased.RouteRuntime.Machine.{Machine}
use zerobased.RouteRuntime.Caddy.{
  DockerCaddy, bootstrap_failed, write_config, reload, inspect_labels,
}

-- `labels[key]`, which is empty for a missing key
abbrev pub label : String → Dict String → String
label key labels = elim (Dict.lookup key labels) [ none ↦ "" | some value ↦ value ]

abbrev pub run_command : DockerCaddy → List String
run_command c =
    "run"
    ∷ "-d"
    ∷ "--name"
    ∷ c.container_name
    ∷ "--label"
    ∷ "dev.zerobased.runtime=caddy"
    ∷ "--label"
    ∷ "dev.zerobased.owner=zerobased"
    ∷ "--label"
    ∷ ("dev.zerobased.home=" <> c.home)
    ∷ "-v"
    ∷ (c.config_path <> ":/etc/caddy/Caddyfile:ro")
    ∷ "-p"
    ∷ "127.0.0.1:80:80"
    ∷ "--add-host"
    ∷ "host.docker.internal:host-gateway"
    ∷ c.image
    ∷ "caddy"
    ∷ "run"
    ∷ "--config"
    ∷ "/etc/caddy/Caddyfile"
    ∷ "--adapter"
    ∷ "caddyfile"
    ∷ []

abbrev pub is_owned : Dict String → Bool
is_owned labels =
    label "dev.zerobased.runtime" labels == "caddy"
    && label "dev.zerobased.owner" labels == "zerobased"

abbrev pub is_at_home : DockerCaddy → Dict String → Bool
is_at_home c labels = label "dev.zerobased.home" labels == c.home

module _ ⦃t : Unicode⦄ (M : Machine) where
  -- `Bootstrap` from the container's labels on.
  unfoldable pub adopt : DockerCaddy → Dict String → M.World → Error × M.World
  adopt c labels w =
      if not (is_owned labels)
      then (
        bootstrap_failed
            (plain ("container " <> (c.container_name <> " exists but is not owned by zerobased"))),
        w,
      )
      else if not (is_at_home c labels)
      then (
        bootstrap_failed (
            plain (
              "container "
              <> (c.container_name
                  <> (" belongs to a different ZEROBASED_HOME ("
                      <> (label "dev.zerobased.home" labels <> ")"))))),
        w,
      )
      else let (_, err, w₁) = M.run ("start" ∷ c.container_name ∷ []) w in
        if not (is_nil err) then (bootstrap_failed err, w₁) else reload M c w₁

  unfoldable pub bootstrap : DockerCaddy → M.World → Error × M.World
  bootstrap c w =
      if c.home == ""
      then (bootstrap_failed (plain "home is required"), w)
      else let (err, w₁) = write_config M c c.publications w in
        if not (is_nil err)
        then (err, w₁)
        else let (labels, missing, w₂) = inspect_labels M c w₁ in
          if is_nil missing
          then adopt c labels w₂
          else let (_, failed, w₃) = M.run (run_command c) w₂ in
            if not (is_nil failed) then (bootstrap_failed failed, w₃) else (nil, w₃)
