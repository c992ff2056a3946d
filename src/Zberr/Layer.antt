-- ===== src/Zberr/Layer.antt =====
-- internal/zberr/registry.go: the layers that an error may come from.
use Prim.Native.String.{String}
use mathlib.Core.List.{List, [], ◌∷◌}

abbrev pub Layer : Type 0
Layer = String

abbrev pub cli : Layer
cli = "cli"

abbrev pub daemon_ipc : Layer
daemon_ipc = "daemon_ipc"

abbrev pub control_plane : Layer
control_plane = "control_plane"

abbrev pub control_plane_store : Layer
control_plane_store = "control_plane_store"

abbrev pub control_plane_client : Layer
control_plane_client = "control_plane_client"

abbrev pub stack_orchestrator : Layer
stack_orchestrator = "stack_orchestrator"

abbrev pub route_runtime : Layer
route_runtime = "route_runtime"

abbrev pub compose_backend : Layer
compose_backend = "compose_backend"

abbrev pub process_launcher : Layer
process_launcher = "process_launcher"

abbrev pub readiness_probe : Layer
readiness_probe = "readiness_probe"

abbrev pub socket_bridge : Layer
socket_bridge = "socket_bridge"

abbrev pub aux_publication : Layer
aux_publication = "auxiliary_publication"

abbrev pub fabric_core : Layer
fabric_core = "fabric_core"

abbrev pub layers : List Layer
layers =
    cli ∷ daemon_ipc ∷ control_plane ∷ control_plane_store ∷ control_plane_client
    ∷ stack_orchestrator ∷ route_runtime ∷ compose_backend ∷ process_launcher ∷ readiness_probe
    ∷ socket_bridge ∷ aux_publication ∷ fabric_core ∷ []

-- `Layers()`, a copy of the list
unfoldable pub all_layers : List Layer
all_layers = layers
