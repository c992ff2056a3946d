-- ===== src/Compose/Isolation.antt =====
-- internal/composebackend/backend.go: the check that an owned project shares nothing with its host or with
-- another project. The project of compose-go is a parameter: what the check reads of it.
pub mod Safety
use zerobased.Base.{
  String, ◌<>◌, Bool, true, false, not, ◌&&◌, ◌||◌, List, [], ◌∷◌, ◌==◌, string_eq, if◌then◌else◌,
}
use zerobased.Base.Sorting.{sort_strings}
use zerobased.Zberr.Layer
use zerobased.Zberr.Code
use zerobased.Zberr.Errors.{Error, nil, plain, is_nil, caused, text}
use zerobased.Compose.Policies.{Policy, RawComposePolicies, custom_name, is_external, model_invalid}

abbrev pub isolation_rejected : String → Error
isolation_rejected message = caused Layer.compose_backend Code.isolation_rejected (plain message)

abbrev pub ownership_owned : String
ownership_owned = "owned"

-- types.Project and types.ServiceConfig
pub record ComposeGo : Type 1 where
  pub Project : Type 0
  pub Service : Type 0
  pub service_names : Project → List String
  pub get_service : String → Project → Error × Service
  pub container_name : Service → String
  -- len(service.Ports) > 0
  pub has_ports : Service → Bool
  pub network_mode : Service → String
  pub net : Service → String
  pub pid : Service → String
  pub ipc : Service → String
  pub cgroup : Service → String
  -- service.Provider != nil
  pub has_provider : Service → Bool
  -- the keys of the project's maps
  pub networks : Project → List String
  pub volumes : Project → List String
  pub secrets : Project → List String
  pub configs : Project → List String

-- The loop over the project's resources of one kind.
unfoldable pub check_resources : String → Policy → List String → Error
check_resources kind p [] = nil
check_resources kind p (name ∷ names) =
    let rest = check_resources kind p names in
    if not (custom_name name p == "")
    then isolation_rejected
        (kind <> (" " <> (name <> (" uses custom name " <> custom_name name p))))
    else if is_external name p
    then isolation_rejected (kind <> (" " <> (name <> " is external")))
    else rest

module _ (G : ComposeGo) where
  unfoldable pub check_service : String → G.Service → Error
  check_service name s =
      if not (G.container_name s == "")
      then isolation_rejected ("service " <> (name <> " uses container_name"))
      else if G.has_ports s
      then isolation_rejected ("service " <> (name <> " publishes host ports"))
      else if G.network_mode s == "host" || G.net s == "host"
      then isolation_rejected ("service " <> (name <> " uses host networking"))
      else if G.pid s == "host" || G.ipc s == "host" || G.cgroup s == "host"
      then isolation_rejected ("service " <> (name <> " uses host namespace sharing"))
      else if G.has_provider s
      then isolation_rejected ("service " <> (name <> " uses provider-managed service"))
      else nil

  unfoldable pub check_services : G.Project → List String → Error
  check_services project [] = nil
  check_services project (name ∷ names) =
      let (err, service) = G.get_service name project in
      let bad = check_service name service in
      let rest = check_services project names in
      if not (is_nil err) then model_invalid (text err) else if not (is_nil bad) then bad else rest

  -- The first error of the two.
  abbrev pub and_then : Error → Error → Error
  and_then err rest = if not (is_nil err) then err else rest

  unfoldable pub validate_isolation : G.Project → RawComposePolicies → String → Error
  validate_isolation project p ownership =
      if not (ownership == ownership_owned)
      then nil
      else and_then (check_services project (sort_strings (G.service_names project))) (
          and_then (check_resources "network" p.networks (G.networks project)) (
            and_then (check_resources "volume" p.volumes (G.volumes project)) (
              and_then (check_resources "secret" p.secrets (G.secrets project))
                (check_resources "config" p.configs (G.configs project)))))
