-- ===== src/Gateway/Orchestration.antt =====
-- A run of internal/up/runner.go whose control plane is the client of internal/controlplane/client.go on the socket
-- of the daemon of internal/daemon/start.go.
use zerobased.Base.{
  ℕ, String, ◌≡◌, ◌⊎◌, inl, inr, refl, sym, subst, ap, ◌∙◌, true, false, none, some, arith,
  string_eq, nat_eq, leb,
}
use zerobased.Base.Dict
use zerobased.Base.Text.{Unicode}
use zerobased.Controlplane.{ClaimReceipt, Publication, Release}
use zerobased.Controlplane.Client.{no_receipt, request, read_answer, decode_error_response}
use zerobased.Controlplane.Client
use zerobased.Zberr.Errors.{Error, is_nil, is, new, critical}
use zerobased.Zberr.Errors.Laws.{is-caused}
use zerobased.Zberr.Layer
use zerobased.Zberr.Code
use zerobased.Daemon.Runtime.{RouteRuntime}
use zerobased.Daemon.Server.{ApiServer, Response, canonical_host, matches_release}
use zerobased.Daemon.Handlers.{Daemon, handle_routes, handle_release, serve_http}
use zerobased.Daemon.Generations.Replay.{released}
use zerobased.Gateway.Wire.{Codec, Link, daemon_http, message, IsClientError, Lost, request-Sent}
use zerobased.Gateway.Session.{answer_of, granted_answer, after_claim, claim-Sent}
use zerobased.Gateway.Lifecycle.{Free, receipt_from, record_from, claim_answered}
use zerobased.Up.Environment.{Environment}
use zerobased.Up.Run.{Plan, Session, claim_of, publication_of, release_of, run_plan}
use zerobased.Up.Run.Watching.{Watched}
use zerobased.Up.Run.Handing.{is_cleanup_failed}
use zerobased.Up.Run.Releasing.{run_plan-Ended}
use zerobased.Gateway.Holding.{Held, handle_routes-Held, release_claim-answers}

module _ ⦃t : Unicode⦄ (R : RouteRuntime) (J : Codec) (K : Link) (token socket : String) where
  abbrev pub http : Client.Http
  http = daemon_http R J K token

  client_error_not_nil : (err : Error) → IsClientError R J K token err → is_nil err ≡ false
  unfolding is
  client_error_not_nil err e = ground arith

  served_publication :
      (p : Publication) (body : J.Bytes) (d : Daemon R)
      → J.read_publication body ≡ some p
      → (serve_http R (message R J K token "PUT" "/routes" body) d).1
        ≡ (handle_routes R (some p) d).1
  unfolding serve_http string_eq
  served_publication p body d e = rw (e) refl

  -- A publication has come to the daemon's handler or not.
  pub publish-sent :
      (p : Publication) (d : Daemon R) (n : K.Net)
      → ((Client.publish http socket p (d, n)).1.0 ≡ d)
        ⊎ ((Client.publish http socket p (d, n)).1.0 ≡ (handle_routes R (some p) d).1)
  unfolding Client.publish
  publish-sent p d n =
      let (unwritten, body) = J.write_publication p in
      elim (request-Sent R J K token socket "PUT" "/routes" body none no_receipt d n unwritten) [
        | inl (kept, failed) ↦ inl kept
        | inr (written, served, how) ↦
            inr (served ∙ served_publication p body d (J.publications_read p written))
      ]

  decoded_error :
      (status : String) (body : J.Bytes) → is_nil (decode_error_response http status body) ≡ false
  unfolding decode_error_response new critical
  decoded_error status body = ground arith

  abbrev answer_to : Response → Error
  answer_to response =
      (read_answer http none no_receipt response.status (K.status_text response.status)
        (J.write_body response.body)).0

  -- An error answer is an error at the client.
  late_answer :
      (response : Response) → is_nil (answer_to response) ≡ true → leb 300 response.status ≡ false
  unfolding read_answer
  late_answer response ok =
      ground (arith, decoded_error (K.status_text response.status) (J.write_body response.body))

  served_release :
      (l : Release) (body : J.Bytes) (d : Daemon R)
      → J.read_release body ≡ some l
      → serve_http R (message R J K token "DELETE" "/claims" body) d ≡ handle_release R (some l) d
  unfolding serve_http string_eq
  served_release l body d e = rw (e) refl

  -- A release has come to the daemon's handler or not; if its answer is nil, it has, and the handler has accepted
  -- it.
  pub release-sent :
      (l : Release) (d : Daemon R) (n : K.Net)
      → let (err, (e, _)) = Client.release http socket l (d, n) in
        ((e ≡ d) × (is_nil err ≡ false))
        ⊎ ((e ≡ (handle_release R (some l) d).1)
            × (is_nil err ≡ true → leb 300 (handle_release R (some l) d).0.status ≡ false))
  unfolding Client.release
  release-sent l d n =
      let (unwritten, body) = J.write_release l in
      elim (request-Sent R J K token socket "DELETE" "/claims" body none no_receipt d n unwritten) [
        | inl (kept, failed) ↦ inl (kept, client_error_not_nil _ failed)
        | inr (written, served, how) ↦
            let answered = served_release l body d (J.releases_read l written) in
            inr (
              served ∙ ap (λ (x : Response × Daemon R). x.1) answered,
              elim how [
                | inl (lost, failed) ↦
                    λ ok. absurd (ground (arith, client_error_not_nil _ (inl failed)))
                | inr same ↦ λ ok.
                    let err =
                      ap (λ (x : Error × ClaimReceipt). x.0) same
                      ∙ ap (λ (x : Response × Daemon R). answer_to x.0) answered in
                    late_answer (handle_release R (some l) d).0 (rw (← err) ok)
              ],
            )
      ]

  module _ (plan : Plan) (g : ClaimReceipt) where
    -- The release, as the daemon looks it up.
    abbrev pub named_release : Release
    named_release = record (release_of plan g) { host = canonical_host plan.config.host }

    release_frees :
        (d : Daemon R) (n : K.Net)
        → is_nil (Client.release http socket (release_of plan g) (d, n)).0 ≡ true
        → Dict.lookup
            (canonical_host plan.config.host)
            (Client.release http socket (release_of plan g) (d, n)).1.0.server.claims
          ≡ none
    unfolding handle_release
    release_frees d n ok = elim (release-sent (release_of plan g) d n) [
      | inl (_, failed) ↦ absurd (ground arith)
      | inr (after, late) ↦ elim (release_claim-answers R named_release d) [
        | inl done ↦ let (r, found, same, free) = released R named_release d done in rw (after) free
        | inr refused ↦ absurd (ground (arith, late ok))
      ]
    ]

    publish-Held :
        (d : Daemon R) (n : K.Net)
        → Held R named_release d
        → Held R named_release (Client.publish http socket (publication_of plan g) (d, n)).1.0
    publish-Held d n held = elim (publish-sent (publication_of plan g) d n) [
      | inl kept ↦ subst (Held R named_release) (sym kept) held
      | inr after ↦
          subst (Held R named_release) (sym after)
            (handle_routes-Held R named_release (some (publication_of plan g)) d held)
    ]

  pub claimed-Held :
      (plan : Plan) (d : Daemon R)
      → Free R plan token d.server
      → Held R
          (named_release plan (receipt_from R plan token d.server))
          (after_claim R J K token (claim_of plan) d)
  unfolding matches_release
  claimed-Held plan d free =
      let s = d.server in
      let r = record_from R plan token s in
      (
        r,
        rw (claim_answered R plan token s free) (
            ground (
              arith,
              Dict.lookup-insert (canonical_host plan.config.host) (canonical_host plan.config.host)
                  r s.claims,
            )),
        ground arith,
        refl,
      )

  -- The control plane is the daemon, and all else is as in `L`.
  module _ (L : Environment) where
    abbrev World : Type 0
    World = (Daemon R × K.Net) × L.World

    abbrev beside : {A : Type 0} → Daemon R × K.Net → A × L.World → A × World
    beside d (a, w) = (a, (d, w))

    abbrev pub connected : Environment
    connected = record {
      World = World;
      claim = λ c (d, w). let (err, g, d₁) = Client.claim http socket c d in (g, err, (d₁, w));
      publish = λ p (d, w). let (err, d₁) = Client.publish http socket p d in (err, (d₁, w));
      release = λ l (d, w). let (err, d₁) = Client.release http socket l d in (err, (d₁, w));
      compose_start = λ q (d, w). beside d (L.compose_start q w);
      compose_stop = λ (d, w). beside d (L.compose_stop w);
      start_process = λ name p (d, w). beside d (L.start_process name p w);
      kill = λ name signal (d, w). (d, L.kill name signal w);
      await_exit = λ name (d, w). beside d (L.await_exit name w);
      poll_exit = λ name (d, w). beside d (L.poll_exit name w);
      stat = λ path (d, w). beside d (L.stat path w);
      is_canceled = λ (d, w). L.is_canceled w;
      readiness_select = λ (d, w). beside d (L.readiness_select w);
      foreground_select = λ (d, w). beside d (L.foreground_select w);
    }

    abbrev pub daemon_watched : Watched connected (Daemon R)
    daemon_watched = record {
      see = λ ((d, n), w). d;
      follows = record {
        stays = λ w. refl;
        joins = λ u v w e f. f ∙ e;
        compose_start_then = λ q w. refl;
        compose_stop_then = λ w. refl;
        start_then = λ name p w. refl;
        kill_then = λ name signal w. refl;
        await_then = λ name w. refl;
        poll_then = λ name w. refl;
        stat_then = λ path w. refl;
        readiness_then = λ w. refl;
        foreground_then = λ w. refl;
      };
    }

    abbrev pub claimed_answer : Plan → Daemon R → K.Net → Error × ClaimReceipt × (Daemon R × K.Net)
    claimed_answer plan d n = Client.claim http socket (claim_of plan) (d, n)

    -- A run whose claim is not answered without an error has made no other call.
    pub refused_run :
        (fuel : ℕ) (plan : Plan) (d : Daemon R) (n : K.Net) (w : L.World)
        (r : Error × Session connected)
        → is_nil (claimed_answer plan d n).0 ≡ false
        → run_plan connected fuel plan ((d, n), w) ≡ some r
        → (r.1.world.0.0 ≡ (claimed_answer plan d n).2.0)
          × (is r.0 Layer.stack_orchestrator Code.claim_rejected ≡ true)
    unfolding run_plan
    refused_run fuel plan d n w r bad returned = (
      ground arith,
      ground (
        arith,
        is-caused Layer.stack_orchestrator Code.claim_rejected (claimed_answer plan d n).0,
      ),
    )

    -- If the host of a run's claim is free at the daemon when the run begins, and the run returns, then the host is
    -- free again; or the run's answer is the error of a clean-up that failed; or the answer to its claim was lost
    -- on the way, and the run's answer is that its claim was rejected. The run's control plane is the client on the
    -- daemon's socket, with codecs that read what they wrote.
    pub host_freed :
        (fuel : ℕ) (plan : Plan) (d : Daemon R) (n : K.Net) (w : L.World)
        (r : Error × Session connected)
        → Free R plan token d.server
        → run_plan connected fuel plan ((d, n), w) ≡ some r
        → (Dict.lookup (canonical_host plan.config.host) r.1.world.0.0.server.claims ≡ none)
          ⊎ ((is_cleanup_failed r.0 ≡ true)
              ⊎ (Lost R J K token socket n
                  × (is r.0 Layer.stack_orchestrator Code.claim_rejected ≡ true)))
    host_freed fuel plan d n w r free returned =
        elim (claim-Sent R J K token socket (claim_of plan) d n) [
          | inl (kept, failed) ↦
              let (same, _) =
                refused_run fuel plan d n w r (client_error_not_nil _ failed) returned in
              inl (rw (same, kept) free.free)
          | inr (after, inl (lost, failed)) ↦
              let (_, rejected) =
                refused_run fuel plan d n w r (client_error_not_nil _ (inl failed)) returned in
              inr (inr (lost, rejected))
          | inr (after, inr (err, value)) ↦
              let g = receipt_from R plan token d.server in
              let answer =
                ap (λ (x : Response × ApiServer). answer_of R J K token x.0)
                  (claim_answered R plan token d.server free)
                ∙ granted_answer R J K token g in
              let granted : is_nil (claimed_answer plan d n).0 ≡ true = rw (err, answer) refl in
              let receipt : (claimed_answer plan d n).1 ≡ g =
                value granted ∙ ap (λ (x : Error × ClaimReceipt). x.1) answer in
              elim (run_plan-Ended connected daemon_watched (Held R (named_release plan g))
                (λ d. Dict.lookup (canonical_host plan.config.host) d.server.claims ≡ none) plan g
                (λ ((e, m), v) held. publish-Held plan g e m held)
                (λ ((e, m), v) held ok. release_frees plan g e m ok) fuel ((d, n), w) r returned
                granted receipt
                (subst (Held R (named_release plan g)) (sym after) (claimed-Held plan d free))) [
                  | inl gone ↦ inl gone
                  | inr failed ↦ inr (inl failed)
                ]
        ]
