-- ===== src/Daemon/Server.antt =====
-- internal/daemon/start.go: the API server. A handler takes what the JSON decoder makes of the
-- request's body (`none` is a decoding error), and the part of a handler that runs under the mutex is
-- a function of the server's state.
use Prim.Native.Nat.{◌%◌, ◌^◌}
use zerobased.Base.{
  ℕ, ◌+◌, String, Bool, true, false, not, ◌&&◌, ◌||◌, Option, none, some, List, [], ◌∷◌, ◌==◌,
  string_eq, nat_eq, int_eq, if◌then◌else◌,
}
use zerobased.Base.Dict
use zerobased.Base.Dict.{Dict}
use zerobased.Base.Text.{Unicode, trim_space, to_lower, trim_suffix}
use zerobased.Controlplane.{Route, Claim, ClaimReceipt, Publication, Release, ErrorResponse}
use zerobased.Zberr.Layer
use zerobased.Zberr.Code

pub record ClaimRecord : Type 0 where
  pub claim : Claim
  pub token : String
  pub generation : ℕ
  pub published : Bool
  pub releasing : Bool
  pub publication : Publication

-- The zero value of `controlplane.Publication`.
abbrev pub no_publication : Publication
no_publication = record {
  name = "";
  host = "";
  project_dir = "";
  session_id = "";
  routes = [];
  claim_token = "";
  generation = 0;
}

-- `routeRuntime`, which does not change, is a parameter of the handlers.
pub record ApiServer : Type 0 where
  pub claims : Dict ClaimRecord
  pub generation : ℕ

-- As `Start` makes it.
abbrev pub init : ApiServer
init = record { claims = []; generation = 0 }

pub data Body : Type 0 where
  empty : Body
  receipt : ClaimReceipt → Body
  error : ErrorResponse → Body
  not_found : Body

pub record Response : Type 0 where
  pub status : ℕ
  pub body : Body

abbrev pub write_json : ℕ → Body → Response
write_json status body = record { status = status; body = body }

abbrev pub write_zb_error : ℕ → String → String → String → String → Response
write_zb_error status layer code owner message =
    write_json status
      (error (record { layer = layer; code = code; owner = owner; message = message }))

-- http.StatusNoContent
abbrev pub no_content : Response
no_content = write_json 204 empty

unfoldable pub canonical_host : ⦃t : Unicode⦄ → String → String
canonical_host host = trim_suffix (to_lower (trim_space host)) "."

-- `left == right` on two routes
abbrev pub same_route : Route → Route → Bool
same_route a b = a.path == b.path && a.process == b.process && a.port == b.port

unfoldable pub routes_equal : List Route → List Route → Bool
routes_equal [] [] = true
routes_equal (a ∷ left) (b ∷ right) = same_route a b && routes_equal left right
routes_equal _ _ = false

unfoldable pub matches_publication : ClaimRecord → Publication → Bool
matches_publication r p =
    if not (r.token == p.claim_token) || not (r.generation == p.generation)
    then false
    else if not (r.claim.project_dir == p.project_dir)
        || not (r.claim.name == p.name)
        || not (r.claim.host == p.host)
        || not (r.claim.session_id == p.session_id)
    then false
    else routes_equal r.claim.routes p.routes

unfoldable pub matches_release : ClaimRecord → Release → Bool
matches_release r l =
    r.token == l.claim_token
    && r.generation == l.generation
    && r.claim.project_dir == l.project_dir
    && r.claim.session_id == l.session_id
    && r.claim.name == l.name
    && r.claim.host == l.host

abbrev pub receipt_of : ClaimRecord → ClaimReceipt
receipt_of r = record { token = r.token; generation = r.generation }

-- `server.generation++` on an int64
abbrev pub next_generation : ApiServer → ℕ
next_generation s = (s.generation + 1) % 2 ^ 64

abbrev pub new_record : Claim → String → ℕ → ClaimRecord
new_record claim token generation = record {
  claim = claim;
  token = token;
  generation = generation;
  published = false;
  releasing = false;
  publication = no_publication;
}

-- The end of `handleClaim`, under the mutex, for a claim with its host in canonical form.
-- `token` is what `newClaimToken` returns if it is called.
unfoldable pub claim_host : Claim → String → ApiServer → Response × ApiServer
claim_host claim token s = elim (Dict.lookup claim.host s.claims) [
  | some existing ↦
      if existing.claim.project_dir == claim.project_dir
        && existing.claim.session_id == claim.session_id
        && not existing.releasing
      then (write_json 200 (receipt (receipt_of existing)), s)
      else (
        write_zb_error 409 Layer.control_plane Code.host_claim_conflict existing.claim.project_dir
            "host already claimed",
        s,
      )
  | none ↦
      let r = new_record claim token (next_generation s) in
      (
        write_json 200 (receipt (receipt_of r)),
        record { claims = Dict.insert claim.host r s.claims; generation = next_generation s },
      )
]

module _ ⦃t : Unicode⦄ where
  unfoldable pub handle_claim : Option Claim → String → ApiServer → Response × ApiServer
  handle_claim none token s =
      (write_zb_error 400 Layer.daemon_ipc Code.protocol_decode_failed "" "decode claim", s)
  handle_claim (some claim) token s =
      if claim.host == ""
      then (
        write_zb_error 400 Layer.control_plane Code.host_claim_conflict "" "claim host required",
        s,
      )
      else if claim.session_id == ""
      then (
        write_zb_error 400 Layer.control_plane Code.lease_rejected "" "claim session required",
        s,
      )
      else claim_host (record claim { host = canonical_host claim.host }) token s
