-- ===== src/Zberr/Registry.antt =====
-- internal/zberr/registry.go: the declared errors, their lookup, and the check of the declarations.
pub mod Laws
use zerobased.Base.{
  String, ◌<>◌, Bool, true, false, not, ◌&&◌, ◌||◌, Option, none, some, List, [], ◌∷◌, ◌==◌,
  string_eq, if◌then◌else◌,
}
use zerobased.Base.Dict
use zerobased.Base.Dict.{Dict}
use zerobased.Base.Text.{Unicode, join}
use zerobased.Zberr.Layer
use zerobased.Zberr.Layer.{Layer}
use zerobased.Zberr.Code
use zerobased.Zberr.Code.{Code}
use zerobased.Zberr.Errors.{Error, nil, plain}

abbrev pub Kind : Type 0
Kind = String

abbrev pub kind_error : Kind
kind_error = "error"

abbrev pub kind_status : Kind
kind_status = "status"

pub record Declaration : Type 0 where
  pub layer : Layer
  pub code : Code
  pub kind : Kind

abbrev pub err_decl : Layer → Code → Declaration
err_decl layer code = record { layer = layer; code = code; kind = kind_error }

abbrev pub status_decl : Layer → Code → Declaration
status_decl layer code = record { layer = layer; code = code; kind = kind_status }

unfoldable pub declarations : List Declaration
declarations =
    err_decl Layer.cli Code.invalid_invocation
    ∷ err_decl Layer.cli Code.start_failed
    ∷ err_decl Layer.cli Code.up_failed
    ∷ err_decl Layer.cli Code.critical
    ∷ err_decl Layer.daemon_ipc Code.socket_bind_failed
    ∷ err_decl Layer.daemon_ipc Code.health_check_failed
    ∷ err_decl Layer.daemon_ipc Code.protocol_decode_failed
    ∷ err_decl Layer.daemon_ipc Code.dispatch_failed
    ∷ err_decl Layer.daemon_ipc Code.critical
    ∷ err_decl Layer.control_plane Code.boot_failed
    ∷ err_decl Layer.control_plane Code.host_claim_conflict
    ∷ err_decl Layer.control_plane Code.listener_claim_conflict
    ∷ err_decl Layer.control_plane Code.route_namespace_claim_conflict
    ∷ err_decl Layer.control_plane Code.lease_rejected
    ∷ err_decl Layer.control_plane Code.publication_rejected
    ∷ status_decl Layer.control_plane Code.publication_degraded
    ∷ err_decl Layer.control_plane Code.stale_token_rejected
    ∷ err_decl Layer.control_plane Code.recovery_conflict
    ∷ err_decl Layer.control_plane Code.route_runtime_unavailable
    ∷ err_decl Layer.control_plane Code.store_unavailable
    ∷ err_decl Layer.control_plane Code.corrupt_state
    ∷ err_decl Layer.control_plane Code.critical
    ∷ err_decl Layer.control_plane_store Code.open_failed
    ∷ err_decl Layer.control_plane_store Code.lock_held
    ∷ err_decl Layer.control_plane_store Code.read_failed
    ∷ err_decl Layer.control_plane_store Code.write_failed
    ∷ err_decl Layer.control_plane_store Code.corrupt_state
    ∷ err_decl Layer.control_plane_store Code.atomic_commit_failed
    ∷ err_decl Layer.control_plane_store Code.critical
    ∷ err_decl Layer.control_plane_client Code.connection_failed
    ∷ err_decl Layer.control_plane_client Code.critical
    ∷ err_decl Layer.stack_orchestrator Code.config_invalid
    ∷ err_decl Layer.stack_orchestrator Code.claim_rejected
    ∷ err_decl Layer.stack_orchestrator Code.preflight_rejected
    ∷ err_decl Layer.stack_orchestrator Code.dependency_start_failed
    ∷ err_decl Layer.stack_orchestrator Code.readiness_failed
    ∷ err_decl Layer.stack_orchestrator Code.generation_commit_failed
    ∷ err_decl Layer.stack_orchestrator Code.cleanup_failed
    ∷ err_decl Layer.stack_orchestrator Code.critical
    ∷ err_decl Layer.route_runtime Code.bootstrap_failed
    ∷ err_decl Layer.route_runtime Code.reload_failed
    ∷ err_decl Layer.route_runtime Code.apply_rejected
    ∷ err_decl Layer.route_runtime Code.unsupported_transport
    ∷ err_decl Layer.route_runtime Code.critical
    ∷ err_decl Layer.compose_backend Code.model_invalid
    ∷ err_decl Layer.compose_backend Code.isolation_rejected
    ∷ err_decl Layer.compose_backend Code.lifecycle_failed
    ∷ err_decl Layer.compose_backend Code.critical
    ∷ err_decl Layer.process_launcher Code.spawn_failed
    ∷ err_decl Layer.process_launcher Code.exited_early
    ∷ err_decl Layer.process_launcher Code.shutdown_failed
    ∷ err_decl Layer.process_launcher Code.critical
    ∷ err_decl Layer.readiness_probe Code.probe_invalid
    ∷ err_decl Layer.readiness_probe Code.timeout
    ∷ err_decl Layer.readiness_probe Code.probe_failed
    ∷ err_decl Layer.readiness_probe Code.critical
    ∷ err_decl Layer.socket_bridge Code.bridge_invalid
    ∷ err_decl Layer.socket_bridge Code.bridge_start_failed
    ∷ err_decl Layer.socket_bridge Code.bridge_health_failed
    ∷ err_decl Layer.socket_bridge Code.bridge_stop_failed
    ∷ err_decl Layer.socket_bridge Code.critical
    ∷ err_decl Layer.aux_publication Code.shared_domain_publish_failed
    ∷ err_decl Layer.aux_publication Code.metadata_render_failed
    ∷ err_decl Layer.aux_publication Code.metadata_cache_failed
    ∷ err_decl Layer.aux_publication Code.critical
    ∷ err_decl Layer.fabric_core Code.config_invalid
    ∷ err_decl Layer.fabric_core Code.identity_invalid
    ∷ err_decl Layer.fabric_core Code.namespace_invalid
    ∷ err_decl Layer.fabric_core Code.endpoint_plan_invalid
    ∷ err_decl Layer.fabric_core Code.lifecycle_invalid
    ∷ err_decl Layer.fabric_core Code.template_render_invalid
    ∷ err_decl Layer.fabric_core Code.critical
    ∷ []

-- `Declarations()`, a copy of the list
unfoldable pub all_declarations : List Declaration
unfolding declarations
all_declarations = declarations

-- The loop of `Lookup`.
unfoldable pub find : Layer → Code → List Declaration → Option Declaration
find layer code [] = none
find layer code (d ∷ ds) = if d.layer == layer && d.code == code then some d else find layer code ds

unfoldable pub lookup : Layer → Code → Option Declaration
unfolding find declarations
lookup layer code = find layer code declarations

unfoldable pub declaration_key : Layer → Code → String
declaration_key layer code = layer <> ("\0" <> code)

abbrev duplicate_message : Declaration → Declaration → String
duplicate_message d prior =
    "duplicate declaration "
    <> (d.layer <> ("/" <> (d.code <> (" also declared as " <> prior.kind))))

-- The two maps that `ValidateDeclarations` fills.
pub record Checked : Type 0 where
  pub seen : Dict Declaration
  pub critical_by_layer : Dict Bool

abbrev remember : Declaration → Checked → Checked
remember d c = record {
  seen = Dict.insert (declaration_key d.layer d.code) d c.seen;
  critical_by_layer =
      if d.code == Code.critical && d.kind == kind_error
      then Dict.insert d.layer true c.critical_by_layer
      else c.critical_by_layer;
}

-- `criticalByLayer[layer]`, which is false for a missing key
unfoldable pub has_critical : Layer → Dict Bool → Bool
has_critical layer m = elim (Dict.lookup layer m) [ none ↦ false | some b ↦ b ]

-- The second loop: the layers with no Critical declaration.
unfoldable pub missing_critical : List Layer → Dict Bool → List String
unfolding has_critical
missing_critical [] m = []
missing_critical (l ∷ ls) m =
    let rest = missing_critical ls m in if has_critical l m then rest else l ∷ rest

abbrev pub missing_error : List String → Error
missing_error [] = nil
missing_error (l ∷ ls) = plain ("missing Critical declaration for layers: " <> join (l ∷ ls) ", ")

module _ ⦃t : Unicode⦄ where
  abbrev kind_message : Declaration → String
  kind_message d =
      "invalid declaration kind " <> (t.quote d.kind <> (" for " <> (d.layer <> ("/" <> d.code))))

  -- The first loop: the maps, or the first complaint.
  unfoldable pub check_declarations : List Declaration → Checked → Error × Checked
  check_declarations [] c = (nil, c)
  check_declarations (d ∷ ds) c =
      let rest = check_declarations ds (remember d c) in
      elim (Dict.lookup (declaration_key d.layer d.code) c.seen) [
        | some prior ↦ (plain (duplicate_message d prior), c)
        | none ↦
            if not (d.kind == kind_error) && not (d.kind == kind_status)
            then (plain (kind_message d), remember d c)
            else rest
      ]

  -- `ValidateDeclarations` over any table of declarations and layers.
  unfoldable pub validate_table : List Declaration → List Layer → Error
  unfolding check_declarations missing_critical
  validate_table ds ls =
      let (err, c) = check_declarations ds (record { seen = []; critical_by_layer = [] }) in
      elim err [ nil ↦ missing_error (missing_critical ls c.critical_by_layer) | e ↦ e ]

  unfoldable pub validate_declarations : Error
  unfolding validate_table declarations declaration_key
  validate_declarations = validate_table declarations Layer.layers
