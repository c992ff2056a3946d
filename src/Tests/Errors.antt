-- ===== src/Tests/Errors.antt =====
-- The error kernel at concrete errors and tables.
use zerobased.Base.{◌≡◌, refl, ◌↔◌, true, [], string_eq}
use zerobased.Zberr.Layer
use zerobased.Zberr.Code
use zerobased.Zberr.Errors.{Error, nil, plain, wrap, zb, critical, validate, is, text}
use zerobased.Zberr.Errors.Laws.{Carries, InChain, is_iff, critical_lem}
use zerobased.Zberr.Registry.{declarations, validate_table, validate_declarations}
use zerobased.Zberr.Registry.Laws.{IsSound, validate_table-IsSound, validate_declarations_nil}
use zerobased.Tests.Samples.{small_table}

-- A claim that the daemon rejected, as `up` reports it.
abbrev rejected_claim : Error
rejected_claim =
    zb Layer.stack_orchestrator Code.claim_rejected "" ""
      (zb Layer.control_plane Code.host_claim_conflict "" "/other" (plain "host already claimed")
        [])
      []

text-rejected_claim :
    text rejected_claim
    ≡ "stack_orchestrator:ClaimRejected: control_plane:HostClaimConflict owner=/other: host already claimed"
unfolding text string_eq
text-rejected_claim = refl

is_iff_example :
    (is (wrap "up: rejected" rejected_claim) Layer.control_plane Code.host_claim_conflict ≡ true)
    ↔ Carries Layer.control_plane Code.host_claim_conflict (wrap "up: rejected" rejected_claim)
is_iff_example =
    is_iff Layer.control_plane Code.host_claim_conflict (wrap "up: rejected" rejected_claim)

critical_lem_example :
    (is (critical Layer.cli rejected_claim []) Layer.cli Code.critical ≡ true)
    × InChain rejected_claim (critical Layer.cli rejected_claim [])
    × (validate (critical Layer.cli rejected_claim []) ≡ nil)
critical_lem_example = critical_lem Layer.cli rejected_claim []

table_checked : validate_table declarations Layer.layers ≡ nil
unfolding validate_declarations
table_checked = validate_declarations_nil

validate_table-IsSound_example : IsSound declarations Layer.layers
validate_table-IsSound_example = validate_table-IsSound declarations Layer.layers table_checked
