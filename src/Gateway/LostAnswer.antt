-- ===== src/Gateway/LostAnswer.antt =====
-- A run of internal/up/runner.go against the daemon of internal/daemon/start.go, when the answer to the run's claim
-- is lost on the way.
use zerobased.Base.{ℕ, String, ◌≡◌, refl, sym, subst, ap, ◌∙◌, true, false, some, ◌==◌, string_eq}
use zerobased.Base.Text.{Unicode}
use zerobased.Controlplane.{Claim, ClaimReceipt}
use zerobased.Controlplane.Client.{claim, no_receipt, request}
use zerobased.Zberr.Errors.{Error, is_nil, is, caused}
use zerobased.Zberr.Errors.Laws.{is_nil-caused}
use zerobased.Zberr.Layer
use zerobased.Zberr.Code
use zerobased.Daemon.Runtime.{RouteRuntime}
use zerobased.Daemon.Handlers.{Daemon}
use zerobased.Gateway.Wire.{Codec, Link, Lost}
use zerobased.Gateway.Session.{after_claim, served_claim, requested, claim-request}
use zerobased.Gateway.Lifecycle.{Free, receipt_from}
use zerobased.Gateway.Holding.{Held}
use zerobased.Gateway.Orchestration.{http, named_release, connected, claimed-Held, refused_run}
use zerobased.Up.Environment.{Environment}
use zerobased.Up.Run.{Plan, Session, claim_of, run_plan}

module _ ⦃t : Unicode⦄ (R : RouteRuntime) (J : Codec) (K : Link) (token socket : String) where
  -- A claim is written and comes to the daemon, and its answer is lost.
  pub record LosesAnswer (c : Claim) (n : K.Net) : Type 0 where
    pub named : (socket == "") ≡ false
    pub written : is_nil (J.write_claim c).0 ≡ true
    pub made : is_nil (K.request_error "PUT" "/claims") ≡ true
    pub sent : is_nil (K.send socket n).0 ≡ true
    pub lost : Lost R J K token socket n

  -- The client has an error, though the daemon has handled the claim.
  claim-lost :
      (c : Claim) (d : Daemon R) (n : K.Net)
      → LosesAnswer c n
      → ((claim (http R J K token socket) socket c (d, n)).2.0 ≡ after_claim R J K token c d)
        × (is_nil (claim (http R J K token socket) socket c (d, n)).0 ≡ false)
  unfolding request
  claim-lost c d n l =
      let (err, world, _) = claim-request R J K token socket c d n in
      let served = served_claim R J K token c (J.write_claim c).1 d (J.claims_read c l.written) in
      let (lost, n₂) = K.receive (K.send socket n).1 in
      let same : requested R J K token socket c d n ≡ (
        caused Layer.control_plane_client Code.connection_failed lost,
        no_receipt,
        (after_claim R J K token c d, n₂),
      ) =
        rw (l.named, l.written, l.made, l.sent, l.lost, served) refl in
      (
        ap (λ (w : Daemon R × K.Net). w.0) world
            ∙ ap (λ (x : Error × ClaimReceipt × (Daemon R × K.Net)). x.2.0) same,
        rw (err, same) (is_nil-caused Layer.control_plane_client Code.connection_failed lost),
      )

  module _ (L : Environment) where
    -- If the answer to a run's claim is lost, on a host that was free, then the run answers that its claim was
    -- rejected, and when it has returned the daemon still holds the host for that claim. The run's control
    -- plane is the client on the daemon's socket, with codecs that read what they wrote, and the claim itself
    -- is written and comes to the daemon.
    pub lost_claim_held :
        (fuel : ℕ) (plan : Plan) (d : Daemon R) (n : K.Net) (w : L.World)
        (r : Error × Session (connected R J K token socket L))
        → Free R plan token d.server
        → LosesAnswer (claim_of plan) n
        → run_plan (connected R J K token socket L) fuel plan ((d, n), w) ≡ some r
        → (is r.0 Layer.stack_orchestrator Code.claim_rejected ≡ true)
          × Held R
              (named_release R J K token socket plan (receipt_from R plan token d.server))
              r.1.world.0.0
    lost_claim_held fuel plan d n w r free loses returned =
        let (after, lost) = claim-lost (claim_of plan) d n loses in
        let (same, rejected) = refused_run R J K token socket L fuel plan d n w r lost returned in
        (
          rejected,
          subst
              (Held R (named_release R J K token socket plan (receipt_from R plan token d.server)))
              (sym (same ∙ after)) (claimed-Held R J K token socket plan d free),
        )
