-- ===== src/Tests/Orchestration.antt =====
-- A run of the shop against an idle daemon over Caddy.
use zerobased.Base.{String, ◌≡◌, ◌⊎◌, refl, true, false, none, some, [], ◌==◌, string_eq, nat_eq}
use zerobased.Base.Dict
use zerobased.Zberr.Errors.{Error, nil, is}
use zerobased.Zberr.Layer
use zerobased.Zberr.Code
use zerobased.Controlplane.Client.{claim, publish, release, request, read_answer}
use zerobased.Daemon.Server.{init, canonical_host}
use zerobased.Up.Config.{route_claims}
use zerobased.Up.Environment.{Environment}
use zerobased.Up.Run.{Session, run_plan}
use zerobased.Up.Run.Handing.{is_cleanup_failed}
use zerobased.Gateway.{
  caddy_runtime, connected, Lost, Held, receipt_from, named_release, host_freed, lost_claim_held,
  others_kept,
}
use zerobased.Tests.Daemon.{daemon_code, caddy_code}
use zerobased.Tests.Session.{plain_codec, plain_link, lossy_link}
use zerobased.Tests.Lifecycle.{host-Free}
use zerobased.Tests.Up.{clock, shop_plan, up_code}
use zerobased.Tests.Samples.{small_table, box, idle}

abbrev socket : String
socket = "/h/daemon.sock"

-- The two runs: over a connection on which nothing is lost, and over one that loses the answer to the claim.
abbrev shop_up : Environment
shop_up = connected (caddy_runtime box) plain_codec plain_link "t1" socket clock

abbrev lossy_up : Environment
lossy_up = connected (caddy_runtime box) plain_codec lossy_link "t1" socket clock

abbrev ended : Error × Session shop_up
ended = elim (run_plan shop_up 5 shop_plan ((idle, 0), 2)) [
  | none ↦ (nil, record { world = ((idle, 0), 0); trace = [] })
  | some r ↦ r
]

abbrev cut_off : Error × Session lossy_up
cut_off = elim (run_plan lossy_up 5 shop_plan ((idle, 0), 2)) [
  | none ↦ (nil, record { world = ((idle, 0), 0); trace = [] })
  | some r ↦ r
]

returned : run_plan shop_up 5 shop_plan ((idle, 0), 2) ≡ some ended
unfolding up_code daemon_code caddy_code claim publish release request read_answer route_claims
returned = refl

returned_cut_off : run_plan lossy_up 5 shop_plan ((idle, 0), 2) ≡ some cut_off
unfolding up_code daemon_code caddy_code claim publish release request read_answer route_claims
returned_cut_off = refl

host_freed_example :
    (Dict.lookup (canonical_host "shop.localhost") ended.1.world.0.0.server.claims ≡ none)
    ⊎ ((is_cleanup_failed ended.0 ≡ true)
        ⊎ (Lost (caddy_runtime box) plain_codec plain_link "t1" socket 0
            × (is ended.0 Layer.stack_orchestrator Code.claim_rejected ≡ true)))
host_freed_example =
    host_freed (caddy_runtime box) plain_codec plain_link "t1" socket clock 5 shop_plan idle 0 2
      ended host-Free returned

lost_claim_held_example :
    (is cut_off.0 Layer.stack_orchestrator Code.claim_rejected ≡ true)
    × Held
        (caddy_runtime box)
        (named_release
          (caddy_runtime box)
          plain_codec
          lossy_link
          "t1"
          socket
          shop_plan
          (receipt_from (caddy_runtime box) shop_plan "t1" init))
        cut_off.1.world.0.0
unfolding string_eq nat_eq
lost_claim_held_example =
    lost_claim_held (caddy_runtime box) plain_codec lossy_link "t1" socket clock 5 shop_plan idle 0
      2 cut_off host-Free
      (record { named = refl; written = refl; made = refl; sent = refl; lost = refl })
      returned_cut_off

other_host : (canonical_host shop_plan.config.host == "ab.test") ≡ false
unfolding daemon_code
other_host = refl

others_kept_example :
    Dict.lookup "ab.test" ended.1.world.0.0.server.claims ≡ Dict.lookup "ab.test" init.claims
others_kept_example =
    others_kept (caddy_runtime box) plain_codec plain_link "t1" socket clock 5 shop_plan idle 0 2
      ended "ab.test" returned other_host
