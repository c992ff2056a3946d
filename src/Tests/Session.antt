-- ===== src/Tests/Session.antt =====
-- A client's claim over a socket to an idle daemon.
use zerobased.Base.{
  ◌≡◌, ◌⊎◌, refl, String, ℕ, suc, true, Option, none, some, ◌==◌, string_eq, nat_eq, if◌then◌else◌,
}
use zerobased.Base.Dict
use zerobased.Zberr.Layer
use zerobased.Zberr.Code
use zerobased.Controlplane.{Claim, ClaimReceipt, Publication, Release, ErrorResponse}
use zerobased.Controlplane.Client.{claim, request, is_connection_failed}
use zerobased.Zberr.Errors.{Error, nil, plain, is_nil, is, new}
use zerobased.Daemon.Runtime.{RouteRuntime}
use zerobased.Daemon.Server.{Body, receipt, error, canonical_host, handle_claim, claim_host}
use zerobased.Daemon.Handlers.{serve_http}
use zerobased.Daemon.Claims.{Granted}
use zerobased.Gateway.{
  caddy_runtime, Codec, Link, IsClientError, Lost, daemon_http, after_claim, claim_over_socket,
}
use zerobased.Tests.Samples.{small_table, box, idle, shop_claim}

-- Messages as they are.
pub data Message : Type 0 where
  claiming : Claim → Message
  publishing : Publication → Message
  releasing : Release → Message
  answering : Body → Message

abbrev pub read_claim : Message → Option Claim
read_claim (claiming c) = some c
read_claim _ = none

abbrev pub read_publication : Message → Option Publication
read_publication (publishing p) = some p
read_publication _ = none

abbrev pub read_release : Message → Option Release
read_release (releasing l) = some l
read_release _ = none

abbrev pub read_receipt : Message → Error × ClaimReceipt
read_receipt (answering (receipt g)) = (nil, g)
read_receipt _ = (plain "no receipt", record { token = ""; generation = 0 })

abbrev pub read_error : Message → Error × ErrorResponse
read_error (answering (error e)) = (nil, e)
read_error _ = (plain "no error", record { layer = ""; code = ""; owner = ""; message = "" })

abbrev pub plain_codec : Codec
plain_codec = record {
  Bytes = Message;
  write_claim = λ c. (nil, claiming c);
  write_publication = λ p. (nil, publishing p);
  write_release = λ l. (nil, releasing l);
  write_body = λ b. answering b;
  read_claim = read_claim;
  read_publication = read_publication;
  read_release = read_release;
  read_receipt = read_receipt;
  read_error = read_error;
  claims_read = λ c h. refl;
  publications_read = λ p h. refl;
  releases_read = λ l h. refl;
  receipts_read = λ g. refl;
  errors_read = λ e. refl;
}

abbrev status_text : ℕ → String
status_text status = "status"

-- A connection on which nothing is lost, and one that loses the first answer.
abbrev pub plain_link : Link
plain_link = record {
  Net = ℕ;
  request_error = λ method path. nil;
  send = λ socket n. (nil, n);
  receive = λ n. (nil, suc n);
  status_text = status_text;
}

abbrev pub lossy_link : Link
lossy_link = record plain_link {
  receive = λ n. (if n == 0 then plain "unexpected EOF" else nil, suc n);
}

abbrev gateway : RouteRuntime
gateway = caddy_runtime box

-- The shop's claim over the link that loses its answer, and over the other.
claim_lost :
    is_connection_failed
      (claim
        (daemon_http gateway plain_codec lossy_link "t1")
        "/run/zb.sock"
        shop_claim
        (idle, 0)).0
    ≡ true
unfolding claim request serve_http handle_claim claim_host new is string_eq nat_eq
    is_connection_failed
claim_lost = refl

claim_over_socket_example :
    let (err, g, (e, _)) =
      claim (daemon_http gateway plain_codec plain_link "t1") "/run/zb.sock" shop_claim (idle, 0) in
    ((e ≡ idle) × IsClientError gateway plain_codec plain_link "t1" err)
    ⊎ ((e ≡ after_claim gateway plain_codec plain_link "t1" shop_claim idle)
        × ((Lost gateway plain_codec plain_link "t1" "/run/zb.sock" 0
              × (is err Layer.control_plane_client Code.connection_failed ≡ true))
            ⊎ (((is_nil err ≡ true)
                  × Granted shop_claim g
                      (Dict.lookup (canonical_host shop_claim.host) e.server.claims))
                ⊎ ((refusal : ErrorResponse) × ((handle_claim
                        (some shop_claim)
                        "t1"
                        idle.server).0.body
                      ≡ error refusal)
                    × (is err refusal.layer refusal.code ≡ true)))))
claim_over_socket_example =
    claim_over_socket gateway plain_codec plain_link "t1" "/run/zb.sock" shop_claim idle 0
