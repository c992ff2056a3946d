-- ===== src/Zberr/Code.antt =====
-- internal/zberr/registry.go: the codes of the errors.
use Prim.Native.String.{String}

abbrev pub Code : Type 0
Code = String

abbrev pub invalid_invocation : Code
invalid_invocation = "InvalidInvocation"

abbrev pub start_failed : Code
start_failed = "StartFailed"

abbrev pub up_failed : Code
up_failed = "UpFailed"

abbrev pub boot_failed : Code
boot_failed = "BootFailed"

abbrev pub host_claim_conflict : Code
host_claim_conflict = "HostClaimConflict"

abbrev pub listener_claim_conflict : Code
listener_claim_conflict = "ListenerClaimConflict"

abbrev pub route_namespace_claim_conflict : Code
route_namespace_claim_conflict = "RouteNamespaceClaimConflict"

abbrev pub lease_rejected : Code
lease_rejected = "LeaseRejected"

abbrev pub publication_rejected : Code
publication_rejected = "PublicationRejected"

abbrev pub publication_degraded : Code
publication_degraded = "PublicationDegraded"

abbrev pub stale_token_rejected : Code
stale_token_rejected = "StaleTokenRejected"

abbrev pub recovery_conflict : Code
recovery_conflict = "RecoveryConflict"

abbrev pub route_runtime_unavailable : Code
route_runtime_unavailable = "RouteRuntimeUnavailable"

abbrev pub store_unavailable : Code
store_unavailable = "StoreUnavailable"

abbrev pub corrupt_state : Code
corrupt_state = "CorruptState"

abbrev pub critical : Code
critical = "Critical"

abbrev pub socket_bind_failed : Code
socket_bind_failed = "SocketBindFailed"

abbrev pub health_check_failed : Code
health_check_failed = "HealthCheckFailed"

abbrev pub protocol_decode_failed : Code
protocol_decode_failed = "ProtocolDecodeFailed"

abbrev pub dispatch_failed : Code
dispatch_failed = "DispatchFailed"

abbrev pub open_failed : Code
open_failed = "OpenFailed"

abbrev pub lock_held : Code
lock_held = "LockHeld"

abbrev pub read_failed : Code
read_failed = "ReadFailed"

abbrev pub write_failed : Code
write_failed = "WriteFailed"

abbrev pub atomic_commit_failed : Code
atomic_commit_failed = "AtomicCommitFailed"

abbrev pub connection_failed : Code
connection_failed = "ConnectionFailed"

abbrev pub config_invalid : Code
config_invalid = "ConfigInvalid"

abbrev pub claim_rejected : Code
claim_rejected = "ClaimRejected"

abbrev pub preflight_rejected : Code
preflight_rejected = "PreflightRejected"

abbrev pub dependency_start_failed : Code
dependency_start_failed = "DependencyStartFailed"

abbrev pub readiness_failed : Code
readiness_failed = "ReadinessFailed"

abbrev pub generation_commit_failed : Code
generation_commit_failed = "GenerationCommitFailed"

abbrev pub cleanup_failed : Code
cleanup_failed = "CleanupFailed"

abbrev pub bootstrap_failed : Code
bootstrap_failed = "BootstrapFailed"

abbrev pub reload_failed : Code
reload_failed = "ReloadFailed"

abbrev pub apply_rejected : Code
apply_rejected = "ApplyRejected"

abbrev pub unsupported_transport : Code
unsupported_transport = "UnsupportedTransport"

abbrev pub model_invalid : Code
model_invalid = "ModelInvalid"

abbrev pub isolation_rejected : Code
isolation_rejected = "IsolationRejected"

abbrev pub lifecycle_failed : Code
lifecycle_failed = "LifecycleFailed"

abbrev pub spawn_failed : Code
spawn_failed = "SpawnFailed"

abbrev pub exited_early : Code
exited_early = "ExitedEarly"

abbrev pub shutdown_failed : Code
shutdown_failed = "ShutdownFailed"

abbrev pub probe_invalid : Code
probe_invalid = "ProbeInvalid"

abbrev pub timeout : Code
timeout = "Timeout"

abbrev pub probe_failed : Code
probe_failed = "ProbeFailed"

abbrev pub bridge_invalid : Code
bridge_invalid = "BridgeInvalid"

abbrev pub bridge_start_failed : Code
bridge_start_failed = "BridgeStartFailed"

abbrev pub bridge_health_failed : Code
bridge_health_failed = "BridgeHealthFailed"

abbrev pub bridge_stop_failed : Code
bridge_stop_failed = "BridgeStopFailed"

abbrev pub shared_domain_publish_failed : Code
shared_domain_publish_failed = "SharedDomainPublishFailed"

abbrev pub metadata_render_failed : Code
metadata_render_failed = "MetadataRenderFailed"

abbrev pub metadata_cache_failed : Code
metadata_cache_failed = "MetadataCacheFailed"

abbrev pub identity_invalid : Code
identity_invalid = "IdentityInvalid"

abbrev pub namespace_invalid : Code
namespace_invalid = "NamespaceInvalid"

abbrev pub endpoint_plan_invalid : Code
endpoint_plan_invalid = "EndpointPlanInvalid"

abbrev pub lifecycle_invalid : Code
lifecycle_invalid = "LifecycleInvalid"

abbrev pub template_render_invalid : Code
template_render_invalid = "TemplateRenderInvalid"
