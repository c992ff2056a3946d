-- ===== src/Gateway/Bystanders.antt =====
-- A run of internal/up/runner.go against the daemon of internal/daemon/start.go, and the other hosts' claims.
use zerobased.Base.{
  ℕ, String, ◌≡◌, ◌⊎◌, refl, ◌∙◌, true, false, some, arith, ◌==◌, string_eq, nat_eq, Option-cases,
  inl, inr,
}
use zerobased.Base.Dict
use zerobased.Base.Text.{Unicode}
use zerobased.Controlplane.{Claim, Publication, Release}
use zerobased.Zberr.Errors.{Error}
use zerobased.Daemon.Runtime.{RouteRuntime}
use zerobased.Daemon.Server.{
  ApiServer, ClaimRecord, canonical_host, claim_host, handle_claim, new_record, next_generation,
}
use zerobased.Daemon.Handlers.{
  Daemon, set_record, active_claim, begin_release, abort_release, finish_release, publish_routes,
  handle_routes, release_claim, handle_release,
}
use zerobased.Gateway.Wire.{Codec, Link}
use zerobased.Gateway.Session.{after_claim, claim-Sent}
use zerobased.Gateway.Orchestration.{connected, publish-sent, release-sent}
use zerobased.Up.Environment.{Environment}
use zerobased.Up.Run.{Plan, Session, claim_of, publication_of, release_of, run_plan}
use zerobased.Up.Run.Leaving.{Leaves, run_plan-Then}

-- Only the record of one host has changed.
abbrev pub Aside : String → ApiServer → ApiServer → Type 0
Aside host s next =
    (other : String)
    → (host == other) ≡ false
    → Dict.lookup other next.claims ≡ Dict.lookup other s.claims

claim_host-Aside :
    (c : Claim) (token : String) (s : ApiServer) → Aside c.host s (claim_host c token s).1
unfolding claim_host
claim_host-Aside c token s other apart =
    ground
      (arith, Dict.lookup-insert other c.host (new_record c token (next_generation s)) s.claims)

set_record-Aside :
    (host : String) (r : ClaimRecord) (s : ApiServer) → Aside host s (set_record host r s)
set_record-Aside host r s other apart = ground (arith, Dict.lookup-insert other host r s.claims)

begin_release-Aside : (l : Release) (s : ApiServer) → Aside l.host s (begin_release l s).1
unfolding begin_release
begin_release-Aside l s other apart = elim (Option-cases (Dict.lookup l.host s.claims)) [
  | inl e ↦ ground arith
  | inr (r, e) ↦
      ground (arith, set_record-Aside l.host (record r { releasing = true }) s other apart)
]

abort_release-Aside : (l : Release) (s : ApiServer) → Aside l.host s (abort_release l s)
unfolding abort_release
abort_release-Aside l s other apart = elim (Option-cases (Dict.lookup l.host s.claims)) [
  | inl e ↦ ground arith
  | inr (r, e) ↦
      ground (arith, set_record-Aside l.host (record r { releasing = false }) s other apart)
]

finish_release-Aside : (l : Release) (s : ApiServer) → Aside l.host s (finish_release l s)
unfolding finish_release
finish_release-Aside l s other apart = ground (arith, Dict.lookup-erase other l.host s.claims)

module _ ⦃t : Unicode⦄ where
  handle_claim-Aside :
      (c : Claim) (token : String) (s : ApiServer)
      → Aside (canonical_host c.host) s (handle_claim (some c) token s).1
  unfolding handle_claim
  handle_claim-Aside c token s other apart =
      ground
        (arith, claim_host-Aside (record c { host = canonical_host c.host }) token s other apart)

module _ ⦃t : Unicode⦄ (R : RouteRuntime) where
  publish_routes-Aside :
      (p : Publication) (d : Daemon R) → Aside p.host d.server (publish_routes R p d).1.server
  unfolding publish_routes
  publish_routes-Aside p d other apart = elim (Option-cases (active_claim p d.server)) [
    | inl e ↦ ground arith
    | inr (r, e) ↦ ground (
      arith,
      set_record-Aside p.host (record r { published = true; publication = p }) d.server other apart,
    )
  ]

  handle_routes-Aside :
      (p : Publication) (d : Daemon R)
      → Aside (canonical_host p.host) d.server (handle_routes R (some p) d).1.server
  unfolding handle_routes
  handle_routes-Aside p d other apart =
      ground (arith, publish_routes-Aside (record p { host = canonical_host p.host }) d other apart)

  release_claim-Aside :
      (l : Release) (d : Daemon R) → Aside l.host d.server (release_claim R l d).1.server
  unfolding release_claim
  release_claim-Aside l d other apart =
      let begun = (begin_release l d.server).1 in
      ground (
        arith,
        begin_release-Aside l d.server other apart,
        abort_release-Aside l begun other apart,
        finish_release-Aside l begun other apart,
      )

  handle_release-Aside :
      (l : Release) (d : Daemon R)
      → Aside (canonical_host l.host) d.server (handle_release R (some l) d).1.server
  unfolding handle_release
  handle_release-Aside l d = release_claim-Aside (record l { host = canonical_host l.host }) d

module _ ⦃t : Unicode⦄ (R : RouteRuntime) (J : Codec) (K : Link) (token socket : String)
    (L : Environment) where
  abbrev world_after : Environment
  world_after = connected R J K token socket L

  abbrev BesideRun : Plan → world_after.World → world_after.World → Type 0
  BesideRun plan ((d, _), _) ((e, _), _) = Aside (canonical_host plan.config.host) d.server e.server

  -- The daemon is as before, or as a handler has left it.
  kept_or_Aside :
      (host : String) (d e after : Daemon R)
      → (e ≡ d) ⊎ (e ≡ after)
      → Aside host d.server after.server
      → Aside host d.server e.server
  kept_or_Aside host d e after (inl kept) aside other apart = rw (kept) refl
  kept_or_Aside host d e after (inr same) aside other apart = rw (same) (aside other apart)

  run_leaves : (plan : Plan) → Leaves world_after plan (BesideRun plan)
  run_leaves plan =
      let host = canonical_host plan.config.host in
      record {
        follows = record {
          stays = λ w other apart. refl;
          joins = λ u v w a b other apart. b other apart ∙ a other apart;
          compose_start_then = λ q w other apart. refl;
          compose_stop_then = λ w other apart. refl;
          start_then = λ name p w other apart. refl;
          kill_then = λ name signal w other apart. refl;
          await_then = λ name w other apart. refl;
          poll_then = λ name w other apart. refl;
          stat_then = λ path w other apart. refl;
          readiness_then = λ w other apart. refl;
          foreground_then = λ w other apart. refl;
        };
        claim_then = λ ((d, n), w).
            kept_or_Aside host d _ (after_claim R J K token (claim_of plan) d)
              (elim (claim-Sent R J K token socket (claim_of plan) d n) [
                | inl (kept, _) ↦ inl kept
                | inr (after, _) ↦ inr after
              ])
              (handle_claim-Aside (claim_of plan) token d.server);
        publish_then = λ g ((d, n), w).
            kept_or_Aside host d _ (handle_routes R (some (publication_of plan g)) d).1
              (publish-sent R J K token socket (publication_of plan g) d n)
              (handle_routes-Aside R (publication_of plan g) d);
        release_then = λ g ((d, n), w).
            kept_or_Aside host d _ (handle_release R (some (release_of plan g)) d).1
              (elim (release-sent R J K token socket (release_of plan g) d n) [
                | inl (kept, _) ↦ inl kept
                | inr (after, _) ↦ inr after
              ])
              (handle_release-Aside R (release_of plan g) d);
      }

  -- Whatever a run that returns has come to, the daemon's records of all hosts but the run's own are as they were,
  -- for a run whose control plane is the client on the daemon's socket, with codecs that read what they wrote.
  pub others_kept :
      (fuel : ℕ) (plan : Plan) (d : Daemon R) (n : K.Net) (w : L.World)
      (r : Error × Session world_after) (other : String)
      → run_plan world_after fuel plan ((d, n), w) ≡ some r
      → (canonical_host plan.config.host == other) ≡ false
      → Dict.lookup other r.1.world.0.0.server.claims ≡ Dict.lookup other d.server.claims
  others_kept fuel plan d n w r other returned apart =
      run_plan-Then world_after plan (BesideRun plan) (run_leaves plan) fuel ((d, n), w) r returned
        other apart
