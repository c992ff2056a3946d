-- ===== src/Tests/Lifecycle.antt =====
-- The messages of a run at an idle daemon over Caddy.
use zerobased.Base.{◌≡◌, refl, true, some, [], string_eq}
use zerobased.Base.Dict
use zerobased.Controlplane.{ClaimReceipt}
use zerobased.Zberr.Errors.{is_nil}
use zerobased.Daemon.Server.{init, receipt, write_json, no_content, handle_claim}
use zerobased.Daemon.Handlers.{handle_routes, handle_release}
use zerobased.RouteRuntime.Caddy.{publish, unpublish}
use zerobased.Up.Config.{route_claims}
use zerobased.Up.Run.{claim_of, publication_of, release_of}
use zerobased.Gateway.{caddy_runtime, Free, sent, lifecycle}
use zerobased.Tests.Daemon.{daemon_code, caddy_code}
use zerobased.Tests.Up.{shop_plan}
use zerobased.Tests.Samples.{small_table, box, fresh}

pub host-Free : Free (caddy_runtime box) shop_plan "t1" init
unfolding Dict.lookup string_eq
host-Free = record { has_host = refl; has_session = refl; free = refl }

accepted : is_nil (publish box (sent (caddy_runtime box) shop_plan "t1" init) fresh).0 ≡ true
unfolding daemon_code caddy_code route_claims
accepted = refl

withdrawn :
    is_nil
      (unpublish box
        (sent (caddy_runtime box) shop_plan "t1" init)
        (publish box (sent (caddy_runtime box) shop_plan "t1" init) fresh).1).0
    ≡ true
unfolding daemon_code caddy_code route_claims
withdrawn = refl

lifecycle_example :
    let R = caddy_runtime box in
    let g : ClaimReceipt = record { token = "t1"; generation = 1 } in
    let (claimed, s) = handle_claim (some (claim_of shop_plan)) "t1" init in
    let (published, d) =
      handle_routes R
        (some (publication_of shop_plan g))
        (record { configured = true; server = s; runtime = fresh }) in
    let (released, last) = handle_release R (some (release_of shop_plan g)) d in
    (claimed ≡ write_json 200 (receipt g))
    × (published ≡ no_content)
    × (released ≡ no_content)
    × (last.server ≡ record { claims = []; generation = 1 })
lifecycle_example =
    lifecycle (caddy_runtime box) shop_plan "t1" init fresh host-Free accepted withdrawn
