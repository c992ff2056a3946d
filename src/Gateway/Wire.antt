-- ===== src/Gateway/Wire.antt =====
-- The socket between a client of internal/controlplane/client.go and the API server of internal/daemon/start.go.
-- A connection may fail before the server has the request, and the answer may be lost behind it.
use zerobased.Base.{
  ℕ, String, ◌≡◌, ◌⊎◌, inl, inr, refl, sym, subst, true, false, not, Option, some, [], ◌==◌,
  string_eq, Bool-cases, if◌then◌else◌,
}
use zerobased.Base.Text.{Unicode}
use zerobased.Controlplane.{Claim, ClaimReceipt, Publication, Release, ErrorResponse}
use zerobased.Controlplane.Client.{Http, request, read_answer}
use zerobased.Zberr.Layer
use zerobased.Zberr.Code
use zerobased.Zberr.Errors.{Error, nil, plain, is_nil, is, critical, caused}
use zerobased.Zberr.Errors.Laws.{is-caused, is-critical}
use zerobased.Daemon.Runtime.{RouteRuntime}
use zerobased.Daemon.Server.{Body, empty, receipt, error, Response}
use zerobased.Daemon.Handlers.{Daemon, Request, serve_http}

-- The JSON of the messages: the decoder reads what the encoder wrote.
pub record Codec : Type 1 where
  pub Bytes : Type 0
  pub write_claim : Claim → Error × Bytes
  pub write_publication : Publication → Error × Bytes
  pub write_release : Release → Error × Bytes
  pub write_body : Body → Bytes
  pub read_claim : Bytes → Option Claim
  pub read_publication : Bytes → Option Publication
  pub read_release : Bytes → Option Release
  pub read_receipt : Bytes → Error × ClaimReceipt
  pub read_error : Bytes → Error × ErrorResponse
  pub claims_read :
      (c : Claim) → is_nil (write_claim c).0 ≡ true → read_claim (write_claim c).1 ≡ some c
  pub publications_read :
      (p : Publication)
      → is_nil (write_publication p).0 ≡ true
      → read_publication (write_publication p).1 ≡ some p
  pub releases_read :
      (l : Release) → is_nil (write_release l).0 ≡ true → read_release (write_release l).1 ≡ some l
  pub receipts_read : (g : ClaimReceipt) → read_receipt (write_body (receipt g)) ≡ (nil, g)
  pub errors_read : (e : ErrorResponse) → read_error (write_body (error e)) ≡ (nil, e)

-- What may happen on the way, in a state of its own: the error of a connection that does not bring the request to
-- the server at the socket's path, and of an answer that does not come. An answer that comes, comes whole.
pub record Link : Type 1 where
  pub Net : Type 0
  pub request_error : String → String → Error
  pub send : String → Net → Error × Net
  pub receive : Net → Error × Net
  pub status_text : ℕ → String

module _ ⦃t : Unicode⦄ (R : RouteRuntime) (J : Codec) (K : Link) (token : String) where
  abbrev pub message : String → String → J.Bytes → Request
  message method path body = record {
    method = method;
    path = path;
    claim = J.read_claim body;
    publication = J.read_publication body;
    release = J.read_release body;
    token = token;
  }

  -- The socket, with the daemon at its other end.
  abbrev pub daemon_http : Http
  daemon_http = record {
    World = Daemon R × K.Net;
    Bytes = J.Bytes;
    marshal_claim = J.write_claim;
    marshal_publication = J.write_publication;
    marshal_release = J.write_release;
    request_error = K.request_error;
    perform = λ socket method path body (d, n).
        let (unsent, n₁) = K.send socket n in
        let (response, d₁) = serve_http R (message method path body) d in
        let (lost, n₂) = K.receive n₁ in
        if not (is_nil unsent) then (unsent, 0, "", J.write_body empty, (d, n₁)) else (
          lost,
          response.status,
          K.status_text response.status,
          J.write_body response.body,
          (d₁, n₂),
        );
    decode_error = J.read_error;
    decode_receipt = J.read_receipt;
    is_eof = λ err. false;
  }

  -- The error of a request that the client has given up itself.
  abbrev pub IsClientError : Error → Type 0
  IsClientError err =
      (is err Layer.control_plane_client Code.connection_failed ≡ true)
      ⊎ (is err Layer.control_plane_client Code.critical ≡ true)

  -- The answer to a request that begins in a state of the link is lost.
  abbrev pub Lost : String → K.Net → Type 0
  Lost socket n = is_nil (K.receive (K.send socket n).1).0 ≡ false

  module _ {A : Type 0} (socket method path : String) (body : J.Bytes)
      (decode : Option (J.Bytes → Error × A)) (zero : A) (d : Daemon R) (n : K.Net) where
    abbrev served : Response × Daemon R
    served = serve_http R (message method path body) d

    -- What comes of a request: it has not come to the daemon; its answer is lost; or it is answered.
    abbrev pub Sent : Error → Error × A × (Daemon R × K.Net) → Type 0
    Sent unmarshalled (err, value, (e, _)) =
        ((e ≡ d) × IsClientError err)
        ⊎ ((is_nil unmarshalled ≡ true)
            × (e ≡ served.1)
            × ((Lost socket n × (is err Layer.control_plane_client Code.connection_failed ≡ true))
                ⊎ ((err, value)
                    ≡ read_answer daemon_http decode zero served.0.status
                        (K.status_text served.0.status) (J.write_body served.0.body))))

    pub request-Sent :
        (unmarshalled : Error)
        → Sent unmarshalled
            (request daemon_http socket method path (unmarshalled, body) decode zero (d, n))
    unfolding request
    request-Sent unmarshalled =
        let http = daemon_http in
        let (unsent, n₁) = K.send socket n in
        let (response, e) = served in
        let (lost, n₂) = K.receive n₁ in
        let sends = request http socket method path (unmarshalled, body) decode zero (d, n) in
        elim (Bool-cases (socket == "")) [
          | inl unnamed ↦
              let err =
                caused Layer.control_plane_client Code.connection_failed
                  (plain "daemon socket path is required") in
              let same : sends ≡ (err, zero, (d, n)) = rw (unnamed) refl in
              subst (Sent unmarshalled) (sym same) (inl (refl, inl (is-caused _ _ _)))
          | inr named ↦ elim (Bool-cases (is_nil unmarshalled)) [
            | inr bad ↦
                let same : sends
                    ≡ (critical Layer.control_plane_client unmarshalled [], zero, (d, n)) =
                  rw (named, bad) refl in
                subst (Sent unmarshalled) (sym same) (inl (refl, inr (is-critical _ _)))
            | inl written ↦ elim (Bool-cases (is_nil (K.request_error method path))) [
              | inr bad ↦
                  let same : sends ≡ (
                    critical Layer.control_plane_client (K.request_error method path) [],
                    zero,
                    (d, n),
                  ) =
                    rw (named, written, bad) refl in
                  subst (Sent unmarshalled) (sym same) (inl (refl, inr (is-critical _ _)))
              | inl made ↦ elim (Bool-cases (is_nil unsent)) [
                | inr bad ↦
                    let same : sends ≡ (
                      caused Layer.control_plane_client Code.connection_failed unsent,
                      zero,
                      (d, n₁),
                    ) =
                      rw (named, written, made, bad) (rw (bad) refl) in
                    subst (Sent unmarshalled) (sym same) (inl (refl, inl (is-caused _ _ _)))
                | inl sent ↦ elim (Bool-cases (is_nil lost)) [
                  | inr bad ↦
                      let same : sends ≡ (
                        caused Layer.control_plane_client Code.connection_failed lost,
                        zero,
                        (e, n₂),
                      ) =
                        rw (named, written, made, sent, bad) refl in
                      subst (Sent unmarshalled) (sym same)
                        (inr (written, refl, inl (bad, is-caused _ _ _)))
                  | inl came ↦
                      let (err, value) =
                        read_answer http decode zero response.status (K.status_text response.status)
                          (J.write_body response.body) in
                      let same : sends ≡ (err, value, (e, n₂)) =
                        rw (named, written, made, sent, came) refl in
                      subst (Sent unmarshalled) (sym same) (inr (written, refl, inr refl))
                ]
              ]
            ]
          ]
        ]
