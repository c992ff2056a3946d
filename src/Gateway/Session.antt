-- ===== src/Gateway/Session.antt =====
-- A client of internal/controlplane/client.go that talks to the API server of internal/daemon/start.go.
use zerobased.Base.{
  ℕ, String, ◌≡◌, ◌⊎◌, inl, inr, refl, sym, true, false, Bool-cases, some, [], ◌∷◌, arith, ◌==◌,
  string_eq, leb, ltb, ◌||◌, ap, ◌∙◌,
}
use zerobased.Base.Dict
use zerobased.Base.Text.{Unicode}
use zerobased.Controlplane.{Claim, ClaimReceipt, ErrorResponse}
use zerobased.Controlplane.Client.{
  Http, no_receipt, claim, request, read_answer, decode_error_response,
}
use zerobased.Zberr.Errors.{Error, nil, plain, is_nil, new, is, with_owner, with_cause}
use zerobased.Zberr.Errors.Laws.{is_iff, here}
use zerobased.Daemon.Runtime.{RouteRuntime}
use zerobased.Daemon.Server.{receipt, error, Response, write_json, canonical_host, handle_claim}
use zerobased.Daemon.Handlers.{Daemon, serve_http}
use zerobased.Gateway.Wire.{Codec, Link, daemon_http, message, IsClientError, Lost, request-Sent}
use zerobased.Zberr.Errors.Laws.{is_nil-eq}
use zerobased.Zberr.Layer
use zerobased.Zberr.Code
use zerobased.Daemon.Answers.{handle_claim-Answered}
use zerobased.Daemon.Claims.{Granted, handle_claim-Granted}

found_in_new :
    (e : ErrorResponse)
    → is
        (new e.layer e.code (with_owner e.owner ∷ with_cause (plain e.message) ∷ []))
        e.layer
        e.code
      ≡ true
unfolding new
found_in_new e =
    (is_iff e.layer e.code
        (new e.layer e.code (with_owner e.owner ∷ with_cause (plain e.message) ∷ []))).1
      ("", e.owner, plain e.message, [], here)

module _ ⦃t : Unicode⦄ (R : RouteRuntime) (J : Codec) (K : Link) (token : String) where
  abbrev http : Http
  http = daemon_http R J K token

  abbrev pub after_claim : Claim → Daemon R → Daemon R
  after_claim c d = record d { server = (handle_claim (some c) token d.server).1 }

  pub served_claim :
      (c : Claim) (body : J.Bytes) (d : Daemon R)
      → J.read_claim body ≡ some c
      → serve_http R (message R J K token "PUT" "/claims" body) d
        ≡ ((handle_claim (some c) token d.server).0, after_claim c d)
  unfolding serve_http string_eq
  served_claim c body d e = rw (e) refl

  -- What the client makes of the daemon's answer to a claim.
  abbrev pub answer_of : Response → Error × ClaimReceipt
  answer_of response =
      read_answer http (some J.read_receipt) no_receipt response.status
        (K.status_text response.status) (J.write_body response.body)

  pub granted_answer : (g : ClaimReceipt) → answer_of (write_json 200 (receipt g)) ≡ (nil, g)
  unfolding read_answer
  granted_answer g = rw (J.receipts_read g) refl

  refused_answer :
      (e : ErrorResponse) (status : ℕ)
      → leb 300 status ≡ true
      → (e.layer == "") ≡ false
      → (e.code == "") ≡ false
      → answer_of (write_json status (error e))
        ≡ (new e.layer e.code (with_owner e.owner ∷ with_cause (plain e.message) ∷ []), no_receipt)
  unfolding read_answer decode_error_response
  refused_answer e status late layer code =
      let outside : (ltb status 200 || leb 300 status) ≡ true = ground arith in
      rw (outside, J.errors_read e, layer, code) refl

  -- The request of a claim, and what `Claim` makes of it.
  abbrev pub requested :
      String → Claim → Daemon R → K.Net → Error × ClaimReceipt × (Daemon R × K.Net)
  requested socket c d n =
      request http socket "PUT" "/claims" (J.write_claim c) (some J.read_receipt) no_receipt (d, n)

  pub claim-request :
      (socket : String) (c : Claim) (d : Daemon R) (n : K.Net)
      → let q = requested socket c d n in
        let r = claim http socket c (d, n) in
        (r.0 ≡ q.0) × (r.2 ≡ q.2) × (is_nil q.0 ≡ true → r.1 ≡ q.1)
  unfolding claim
  claim-request socket c d n =
      let (err, g, w) = requested socket c d n in
      elim (Bool-cases (is_nil err)) [
        | inl ok ↦ (rw (ok) (sym (is_nil-eq err ok)), rw (ok) refl, λ h. rw (ok) refl)
        | inr bad ↦ (rw (bad) refl, rw (bad) refl, λ h. absurd (ground arith))
      ]

  -- A claim has not come to the daemon; or the daemon has answered it, and its answer is lost or read.
  abbrev pub ClaimSent :
      String → Claim → Daemon R → K.Net → Error × ClaimReceipt × (Daemon R × K.Net) → Type 0
  ClaimSent socket c d n (err, g, (e, _)) =
      ((e ≡ d) × IsClientError R J K token err)
      ⊎ ((e ≡ after_claim c d)
          × ((Lost R J K token socket n
                × (is err Layer.control_plane_client Code.connection_failed ≡ true))
              ⊎ ((err ≡ (answer_of (handle_claim (some c) token d.server).0).0)
                  × (is_nil err ≡ true
                      → g ≡ (answer_of (handle_claim (some c) token d.server).0).1))))

  pub claim-Sent :
      (socket : String) (c : Claim) (d : Daemon R) (n : K.Net)
      → ClaimSent socket c d n (claim http socket c (d, n))
  claim-Sent socket c d n =
      let (unwritten, body) = J.write_claim c in
      let (err, world, value) = claim-request socket c d n in
      let daemon : (claim http socket c (d, n)).2.0 ≡ (requested socket c d n).2.0 =
        ap (λ (w : Daemon R × K.Net). w.0) world in
      elim (request-Sent R J K token socket "PUT" "/claims" body (some J.read_receipt) no_receipt d
        n unwritten) [
          | inl (kept, failed) ↦ inl (daemon ∙ kept, rw (err) failed)
          | inr (written, served, how) ↦
              let answered = served_claim c body d (J.claims_read c written) in
              let after : (claim http socket c (d, n)).2.0 ≡ after_claim c d =
                daemon ∙ served ∙ ap (λ (x : Response × Daemon R). x.1) answered in
              elim how [
                | inl (lost, failed) ↦ inr (after, inl (lost, rw (err) failed))
                | inr same ↦
                    let read : ((requested socket c d n).0, (requested socket c d n).1)
                        ≡ answer_of (handle_claim (some c) token d.server).0 =
                      same ∙ ap (λ (x : Response × Daemon R). answer_of x.0) answered in
                    inr (
                      after,
                      inr (
                        err ∙ ap (λ (x : Error × ClaimReceipt). x.0) read,
                        λ ok. value (rw (← err) ok) ∙ ap (λ (x : Error × ClaimReceipt). x.1) read,
                      ),
                    )
              ]
        ]

  -- A claim that a client sends to the daemon over a socket, with codecs that read what they wrote, does not come
  -- to the daemon, which is as before, or its answer is lost, and in both cases the client has an error that it
  -- has made itself; or it gives the client a receipt, and then the daemon holds the claim under its canonical
  -- host with the receipt's token and generation; or an error in which the client finds the layer and the code of
  -- the daemon's error response.
  pub claim_over_socket :
      (socket : String) (c : Claim) (d : Daemon R) (n : K.Net)
      → let (err, g, (e, _)) = claim http socket c (d, n) in
        ((e ≡ d) × IsClientError R J K token err)
        ⊎ ((e ≡ after_claim c d)
            × ((Lost R J K token socket n
                  × (is err Layer.control_plane_client Code.connection_failed ≡ true))
                ⊎ (((is_nil err ≡ true)
                      × Granted c g (Dict.lookup (canonical_host c.host) e.server.claims))
                    ⊎ ((refusal : ErrorResponse) × ((handle_claim (some c) token d.server).0.body
                          ≡ error refusal)
                        × (is err refusal.layer refusal.code ≡ true)))))
  claim_over_socket socket c d n = elim (claim-Sent socket c d n) [
    | inl unsent ↦ inl unsent
    | inr (after, inl lost) ↦ inr (after, inl lost)
    | inr (after, inr (err, value)) ↦ elim (handle_claim-Answered c token d.server) [
      | inl (g, e) ↦
          let answer = ap answer_of e ∙ granted_answer g in
          let ok : is_nil (claim http socket c (d, n)).0 ≡ true = rw (err, answer) refl in
          let same = value ok ∙ ap (λ (x : Error × ClaimReceipt). x.1) answer in
          inr (after, inr (inl (ok, rw (after, same) (handle_claim-Granted c token d.server g e))))
      | inr (refusal, status, same, late, layer, code) ↦
          let answer = ap answer_of same ∙ refused_answer refusal status late layer code in
          inr (
            after,
            inr (
                inr (
                  refusal,
                  ap (λ (x : Response). x.body) same,
                  rw (err, answer) (found_in_new refusal),
                )),
          )
    ]
  ]
