-- ===== src/Gateway/Lifecycle.antt =====
-- The messages of a run of internal/up/runner.go at the API server of internal/daemon/start.go: its claim, its
-- publication and its release.
use zerobased.Base.{
  String, ◌≡◌, refl, ◌∙◌, true, false, none, some, List, [], ◌∷◌, arith, ◌==◌, string_eq, nat_eq,
  int_eq,
}
use zerobased.Base.Dict
use zerobased.Base.Text.{Unicode}
use zerobased.Controlplane.{Route, Claim, ClaimReceipt, Publication, Release}
use zerobased.Zberr.Errors.{is_nil}
use zerobased.Daemon.Runtime.{RouteRuntime}
use zerobased.Daemon.Server.{
  ApiServer, ClaimRecord, receipt, write_json, no_content, new_record, next_generation,
  canonical_host, claim_host, handle_claim, routes_equal, matches_publication, matches_release,
}
use zerobased.Daemon.Handlers.{
  set_record, active_claim, begin_release, finish_release, withdraw, publish_routes, handle_routes,
  release_claim, handle_release,
}
use zerobased.Daemon.Generations.{granted}
use zerobased.Up.Config.{route_claims}
use zerobased.Up.Run.{Plan, claim_of, publication_of, release_of}

routes_equal_refl : (routes : List Route) → routes_equal routes routes ≡ true
unfolding routes_equal
routes_equal_refl [] = refl
routes_equal_refl (route ∷ routes) = ground (arith, routes_equal_refl routes)

module _ ⦃t : Unicode⦄ (R : RouteRuntime) (plan : Plan) (token : String) where
  abbrev host_of : String
  host_of = canonical_host plan.config.host

  abbrev pub receipt_from : ApiServer → ClaimReceipt
  receipt_from s = record { token = token; generation = next_generation s }

  -- What the runtime is asked to publish.
  abbrev pub sent : ApiServer → Publication
  sent s = record (publication_of plan (receipt_from s)) { host = host_of }

  abbrev pub canonical_claim : Claim
  canonical_claim = record (claim_of plan) { host = host_of }

  abbrev pub record_from : ApiServer → ClaimRecord
  record_from s = new_record canonical_claim token (next_generation s)

  abbrev published_record : ApiServer → ClaimRecord
  published_record s = record (record_from s) { published = true; publication = sent s }

  abbrev published_server : ApiServer → ApiServer
  published_server s = set_record host_of (published_record s) (granted canonical_claim token s)

  -- The host is free, and the claim names it and its session.
  pub record Free (s : ApiServer) : Type 0 where
    pub has_host : (plan.config.host == "") ≡ false
    pub has_session : (plan.session_id == "") ≡ false
    pub free : Dict.lookup (canonical_host plan.config.host) s.claims ≡ none

  granted_free :
      (claim : Claim) (s : ApiServer)
      → Dict.lookup claim.host s.claims ≡ none
      → claim_host claim token s
        ≡ (write_json 200 (receipt (receipt_from s)), granted claim token s)
  unfolding claim_host
  granted_free claim s free = rw (claim_host, free) refl

  pub claim_answered :
      (s : ApiServer)
      → Free s
      → handle_claim (some (claim_of plan)) token s
        ≡ (write_json 200 (receipt (receipt_from s)), granted canonical_claim token s)
  unfolding handle_claim
  claim_answered s f = rw (f.has_host, f.has_session) (granted_free canonical_claim s f.free)

  record_looked_up :
      (r : ClaimRecord) (s : ApiServer)
      → Dict.lookup host_of (set_record host_of r s).claims ≡ some r
  record_looked_up r s = ground (arith, Dict.lookup-insert host_of host_of r s.claims)

  claim_is_active :
      (s : ApiServer)
      → active_claim (sent s) (granted canonical_claim token s) ≡ some (record_from s)
  unfolding active_claim matches_publication
  claim_is_active s = ground (
    arith,
    record_looked_up (record_from s) s,
    routes_equal_refl (route_claims plan.config.routes),
  )

  publication_answered :
      (s : ApiServer) (runtime : R.State)
      → is_nil (R.publish (sent s) runtime).0 ≡ true
      → handle_routes R (some (publication_of plan (receipt_from s))) (record {
        configured = true;
        server = granted canonical_claim token s;
        runtime = runtime;
      })
        ≡ (
          no_content,
          record {
            configured = true;
            server = published_server s;
            runtime = (R.publish (sent s) runtime).1;
          },
        )
  unfolding handle_routes publish_routes
  publication_answered s runtime accepted = rw (publish_routes, claim_is_active s, accepted) refl

  abbrev named : ApiServer → Release
  named s = record (release_of plan (receipt_from s)) { host = host_of }

  abbrev marked : ApiServer → ClaimRecord
  marked s = record (published_record s) { releasing = true }

  release_begins :
      (s : ApiServer)
      → begin_release (named s) (published_server s)
        ≡ (some (marked s), set_record host_of (marked s) (published_server s))
  unfolding begin_release matches_release
  release_begins s =
      ground (arith, record_looked_up (published_record s) (granted canonical_claim token s))

  -- The server with the claims of `s`, after one generation more.
  abbrev pub counted : ApiServer → ApiServer
  counted s = record { claims = s.claims; generation = next_generation s }

  release_ends :
      (s : ApiServer)
      → Dict.lookup host_of s.claims ≡ none
      → finish_release (named s) (set_record host_of (marked s) (published_server s)) ≡ counted s
  unfolding finish_release matches_release
  release_ends s free =
      let first = Dict.insert host_of (record_from s) s.claims in
      let second = Dict.insert host_of (published_record s) first in
      let left : Dict.erase host_of (Dict.insert host_of (marked s) second) ≡ s.claims =
        Dict.erase-insert host_of (marked s) second
        ∙ Dict.erase-insert host_of (published_record s) first
        ∙ Dict.erase-insert host_of (record_from s) s.claims
        ∙ Dict.erase-free host_of s.claims free in
      ground (arith, left, record_looked_up (marked s) (published_server s))

  release_answered :
      (s : ApiServer) (runtime : R.State)
      → Dict.lookup host_of s.claims ≡ none
      → is_nil (R.unpublish (sent s) runtime).0 ≡ true
      → handle_release R
          (some (release_of plan (receipt_from s)))
          (record { configured = true; server = published_server s; runtime = runtime })
        ≡ (
          no_content,
          record {
            configured = true;
            server = counted s;
            runtime = (R.unpublish (sent s) runtime).1;
          },
        )
  unfolding handle_release release_claim withdraw
  release_answered s runtime free withdrawn =
      let found : (begin_release (named s) (published_server s)).0 ≡ some (marked s) =
        rw (release_begins s) refl in
      let begun : (begin_release (named s) (published_server s)).1
          ≡ set_record host_of (marked s) (published_server s) =
        rw (release_begins s) refl in
      rw (release_claim, found, withdrawn, begun, release_ends s free) refl

  -- If the host of a run's claim is free at a daemon with a route runtime, and the runtime accepts the run's
  -- publication and its withdrawal, then the daemon answers the run's claim with a receipt, the publication
  -- and the release that the run makes with this receipt with 204, and has the claims of before again, one
  -- generation later.
  pub lifecycle :
      (s : ApiServer) (runtime : R.State)
      → Free s
      → is_nil (R.publish (sent s) runtime).0 ≡ true
      → is_nil (R.unpublish (sent s) (R.publish (sent s) runtime).1).0 ≡ true
      → let (claimed, s₁) = handle_claim (some (claim_of plan)) token s in
        let (published, d₂) =
          handle_routes R
            (some (publication_of plan (receipt_from s)))
            (record { configured = true; server = s₁; runtime = runtime }) in
        let (released, d₃) = handle_release R (some (release_of plan (receipt_from s))) d₂ in
        (claimed ≡ write_json 200 (receipt (receipt_from s)))
        × (published ≡ no_content)
        × (released ≡ no_content)
        × (d₃.server ≡ counted s)
  lifecycle s runtime f accepted withdrawn =
      let published = (R.publish (sent s) runtime).1 in
      rw
        (
          claim_answered s f,
          publication_answered s runtime accepted,
          release_answered s published f.free withdrawn,
        )
        (refl, refl, refl, refl)
