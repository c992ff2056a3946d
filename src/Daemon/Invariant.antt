-- ===== src/Daemon/Invariant.antt =====
-- What holds of the daemon's table of claims after every request.
use zerobased.Base.{
  String, ◌≡◌, refl, true, false, ◌⊎◌, inl, inr, Option, none, some, List, [], ◌∷◌, arith,
  string_eq, Option-cases,
}
use zerobased.Base.Dict
use zerobased.Base.Text.{Unicode}
use zerobased.Controlplane.{Claim, Publication, Release}
use zerobased.Daemon.Runtime.{RouteRuntime}
use zerobased.Daemon.Server.{
  ApiServer, ClaimRecord, matches_publication, matches_release, new_record, next_generation,
  canonical_host, claim_host, handle_claim,
}
use zerobased.Daemon.Handlers.{
  Daemon, Request, active_claim, set_record, begin_release, abort_release, finish_release,
  publish_routes, handle_routes, release_claim, handle_release, serve_http, serve,
}

-- A record stands under its claim's host, and what it has published matches its claim.
abbrev pub Consistent : String → ClaimRecord → Type 0
Consistent host r =
    (r.claim.host ≡ host)
    × ((r.published ≡ false)
        ⊎ ((matches_publication r r.publication ≡ true) × (r.publication.host ≡ host)))

pub record IsValid (s : ApiServer) : Type 0 where
  pub nodup : Dict.NodupKeys s.claims
  pub consistent : Dict.Entries Consistent s.claims

set_record-IsValid :
    (host : String) (r : ClaimRecord) (s : ApiServer)
    → Consistent host r
    → IsValid s
    → IsValid (set_record host r s)
set_record-IsValid host r s c v = record {
  nodup = Dict.insert-NodupKeys host r s.claims v.nodup;
  consistent = Dict.insert-Entries Consistent host r s.claims c v.consistent;
}

pub found-Consistent :
    (host : String) (r : ClaimRecord) (s : ApiServer)
    → IsValid s
    → Dict.lookup host s.claims ≡ some r
    → Consistent host r
found-Consistent host r s v e = Dict.lookup-Entries Consistent host r s.claims v.consistent e

claim_host-IsValid :
    (claim : Claim) (token : String) (s : ApiServer)
    → IsValid s
    → IsValid (claim_host claim token s).1
unfolding claim_host
claim_host-IsValid claim token s v = elim (Option-cases (Dict.lookup claim.host s.claims)) [
  | inl free ↦
      let r = new_record claim token (next_generation s) in
      rw (free, claim_host)
        (record {
          nodup = Dict.insert-NodupKeys claim.host r s.claims v.nodup;
          consistent =
              Dict.insert-Entries Consistent claim.host r s.claims (refl, inl refl) v.consistent;
        })
  | inr (r, e) ↦ ground arith
]

pub active_claim-matches :
    (p : Publication) (s : ApiServer) (r : ClaimRecord)
    → active_claim p s ≡ some r
    → (Dict.lookup p.host s.claims ≡ some r)
      × (r.releasing ≡ false)
      × (matches_publication r p ≡ true)
unfolding active_claim
active_claim-matches p s r e = ground arith

-- A release that begins has found a record that matches it, and has marked it.
pub begin_release_parts :
    (l : Release) (s : ApiServer) (r : ClaimRecord)
    → (begin_release l s).0 ≡ some r
    → (Dict.lookup l.host s.claims ≡ some (record r { releasing = false }))
      × (r.releasing ≡ true)
      × (matches_release r l ≡ true)
      × ((begin_release l s).1 ≡ set_record l.host r s)
unfolding begin_release matches_release
begin_release_parts l s r e = ground arith

pub begin_release-IsValid :
    (l : Release) (s : ApiServer) → IsValid s → IsValid (begin_release l s).1
unfolding begin_release
begin_release-IsValid l s v = elim (Option-cases (Dict.lookup l.host s.claims)) [
  | inl e ↦ rw (e, begin_release) v
  | inr (r, e) ↦
      let c = found-Consistent l.host r s v e in
      let w =
        set_record-IsValid l.host (record r { releasing = true }) s
          (unfold matches_publication in c) v in
      ground (arith, w)
]

pub abort_release-IsValid : (l : Release) (s : ApiServer) → IsValid s → IsValid (abort_release l s)
unfolding abort_release
abort_release-IsValid l s v = elim (Option-cases (Dict.lookup l.host s.claims)) [
  | inl e ↦ rw (e, abort_release) v
  | inr (r, e) ↦
      let c = found-Consistent l.host r s v e in
      let w =
        set_record-IsValid l.host (record r { releasing = false }) s
          (unfold matches_publication in c) v in
      ground (arith, w)
]

pub finish_release-IsValid :
    (l : Release) (s : ApiServer) → IsValid s → IsValid (finish_release l s)
unfolding finish_release
finish_release-IsValid l s v =
    let w : IsValid (record s { claims = Dict.erase l.host s.claims }) = record {
      nodup = Dict.erase-NodupKeys l.host s.claims v.nodup;
      consistent = Dict.erase-Entries Consistent l.host s.claims v.consistent;
    } in
    ground (arith, w)

module _ ⦃t : Unicode⦄ where
  pub handle_claim-IsValid :
      (body : Option Claim) (token : String) (s : ApiServer)
      → IsValid s
      → IsValid (handle_claim body token s).1
  unfolding handle_claim
  handle_claim-IsValid none token s v = v
  handle_claim-IsValid (some claim) token s v =
      ground
        (arith, claim_host-IsValid (record claim { host = canonical_host claim.host }) token s v)

module _ ⦃t : Unicode⦄ (R : RouteRuntime) where
  pub publish_routes-IsValid :
      (p : Publication) (d : Daemon R) → IsValid d.server → IsValid (publish_routes R p d).1.server
  unfolding publish_routes
  publish_routes-IsValid p d v = elim (Option-cases (active_claim p d.server)) [
    | inl e ↦ rw (e, publish_routes) v
    | inr (r, e) ↦
        let (found, _, same) = active_claim-matches p d.server r e in
        let c = found-Consistent p.host r d.server v found in
        let w =
          set_record-IsValid p.host (record r { published = true; publication = p }) d.server
            (c.0, inr (unfold matches_publication in same, refl)) v in
        rw (e, publish_routes) (ground (arith, w))
  ]

  pub handle_routes-IsValid :
      (body : Option Publication) (d : Daemon R)
      → IsValid d.server
      → IsValid (handle_routes R body d).1.server
  unfolding handle_routes
  handle_routes-IsValid none d v = ground arith
  handle_routes-IsValid (some p) d v =
      ground (arith, publish_routes-IsValid (record p { host = canonical_host p.host }) d v)

  pub release_claim-IsValid :
      (l : Release) (d : Daemon R) → IsValid d.server → IsValid (release_claim R l d).1.server
  unfolding release_claim
  release_claim-IsValid l d v =
      let begun = begin_release-IsValid l d.server v in
      ground (
        arith,
        begun,
        abort_release-IsValid l (begin_release l d.server).1 begun,
        finish_release-IsValid l (begin_release l d.server).1 begun,
      )

  pub handle_release-IsValid :
      (body : Option Release) (d : Daemon R)
      → IsValid d.server
      → IsValid (handle_release R body d).1.server
  unfolding handle_release
  handle_release-IsValid none d v = v
  handle_release-IsValid (some l) d v =
      release_claim-IsValid (record l { host = canonical_host l.host }) d v

  -- Every request keeps the table of claims valid, whatever it asks and however the runtime answers.
  pub serve_http-IsValid :
      (q : Request) (d : Daemon R) → IsValid d.server → IsValid (serve_http R q d).1.server
  unfolding serve_http
  serve_http-IsValid q d v = ground (
    arith,
    handle_claim-IsValid q.claim q.token d.server v,
    handle_routes-IsValid q.publication d v,
    handle_release-IsValid q.release d v,
  )

  -- So the table is valid after any requests to a daemon that has just started.
  pub serve-IsValid :
      (qs : List Request) (d : Daemon R) → IsValid d.server → IsValid (serve R qs d).server
  unfolding serve
  serve-IsValid [] d v = v
  serve-IsValid (q ∷ qs) d v = serve-IsValid qs (serve_http R q d).1 (serve_http-IsValid q d v)
