-- ===== src/Tests/Generations.antt =====
-- The generations of two projects that claim a host one after the other.
use Prim.Native.Nat.{◌^◌}
use zerobased.Base.{
  ◌+◌, ◌≤◌, ◌<◌, ◌≡◌, ◌⊎◌, refl, some, [], ◌∷◌, length, arith, string_eq, nat_eq, int_eq,
}
use zerobased.Controlplane.{Publication}
use zerobased.Daemon.Server.{canonical_host, no_content}
use zerobased.Daemon.Handlers.{Request, serve, handle_routes, handle_release, stale}
use zerobased.Daemon.Generations.{Numbered, init-Numbered, serve-Numbered}
use zerobased.Daemon.Generations.Replay.{receipt_not_replayed}
use zerobased.Gateway.{Gateway, caddy_runtime}
use zerobased.Tests.Daemon.{daemon_code}
use zerobased.Tests.Samples.{small_table, box, idle, shop_claim, shop_release, claim_request}

abbrev rival_request : Request
rival_request = record claim_request {
  claim = some (record shop_claim { project_dir = "/rival"; session_id = "s2" });
  token = "t2";
}

abbrev held : Gateway box
held = serve (caddy_runtime box) (claim_request ∷ []) idle

serve-Numbered_example :
    Numbered (serve (caddy_runtime box) (claim_request ∷ []) idle).server
    × ((serve (caddy_runtime box) (claim_request ∷ []) idle).server.generation ≤ 0 + 1)
serve-Numbered_example =
    serve-Numbered (caddy_runtime box) (claim_request ∷ []) idle (omega arith) init-Numbered

abbrev taken_over : Gateway box
taken_over =
    serve (caddy_runtime box) (rival_request ∷ [])
      (handle_release (caddy_runtime box) (some shop_release) held).1

held-Numbered : Numbered held.server
held-Numbered =
    (serve-Numbered (caddy_runtime box) (claim_request ∷ []) idle (omega arith) init-Numbered).0

few : held.server.generation + length (rival_request ∷ []) < 2 ^ 64
unfolding daemon_code
few = omega arith

given_back : (handle_release (caddy_runtime box) (some shop_release) held).0 ≡ no_content
unfolding daemon_code
given_back = refl

receipt_not_replayed_example :
    (handle_release (caddy_runtime box) (some shop_release) taken_over
      ≡ (stale "release does not match an active claim", taken_over))
    × ((p : Publication)
        → canonical_host p.host ≡ canonical_host shop_release.host
        → p.generation ≡ 1
        → ((handle_routes (caddy_runtime box) (some p) taken_over).1 ≡ taken_over)
          × (((handle_routes (caddy_runtime box) (some p) taken_over).0.status ≡ 409)
              ⊎ ((handle_routes (caddy_runtime box) (some p) taken_over).0.status ≡ 503)))
receipt_not_replayed_example =
    receipt_not_replayed (caddy_runtime box) shop_release (rival_request ∷ []) held held-Numbered
      few given_back
