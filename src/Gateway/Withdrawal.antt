-- ===== src/Gateway/Withdrawal.antt =====
-- The agreement of the two tables under releases.
use zerobased.Base.{
  String, ◌≡◌, refl, ap, ◌∙◌, true, false, ◌&&◌, Option, none, some, List, [], ◌∷◌, arith, ◌==◌,
  string_eq, if◌then◌else◌, Option-cases, Bool-cases, inl, inr, ◌⊎◌, All,
}
use zerobased.Base.Dict
use zerobased.Base.Dict.{Dict}
use zerobased.Base.Text.{Unicode}
use zerobased.Controlplane.{Claim, Publication, Release}
use zerobased.Zberr.Errors.{Error, is_nil}
use zerobased.Daemon.Server.{ApiServer, ClaimRecord, canonical_host, matches_release, handle_claim}
use zerobased.Daemon.Handlers.{
  Request, set_record, begin_release, abort_release, finish_release, withdraw, release_claim,
  handle_release, handle_routes, serve_http, serve,
}
use zerobased.Daemon.Invariant.{
  IsValid, begin_release_parts, found-Consistent, release_claim-IsValid, handle_claim-IsValid,
  publish_routes-IsValid,
}
use zerobased.RouteRuntime.Machine.{Machine}
use zerobased.RouteRuntime.Caddy.{Runtime, unpublish}
use zerobased.RouteRuntime.Hosts.{runtime_host-eq}
use zerobased.RouteRuntime.Publishing.{unpublish-table}
use zerobased.Gateway.Agreement.{
  caddy_runtime, publication_of, published_at-insert, published_at-erase, Gateway, routes_of,
  Agrees, insert-Stable, erase-Stable, claim_host-Agrees, publish_routes-Agrees,
}

finished :
    (l : Release) (r : ClaimRecord) (s : ApiServer)
    → matches_release r l ≡ true
    → finish_release l (set_record l.host r s)
      ≡ record s { claims = Dict.erase l.host (Dict.insert l.host r s.claims) }
unfolding finish_release
finished l r s m = ground (arith, Dict.lookup-insert l.host l.host r s.claims)

aborted :
    (l : Release) (r : ClaimRecord) (s : ApiServer)
    → matches_release r l ≡ true
    → abort_release l (set_record l.host r s)
      ≡ set_record l.host (record r { releasing = false }) (set_record l.host r s)
unfolding abort_release
aborted l r s m = ground (arith, Dict.lookup-insert l.host l.host r s.claims)

module _ ⦃t : Unicode⦄ (M : Machine) where
  withdrawn-routes :
      (p : Publication) (r : Runtime M)
      → canonical_host p.host ≡ p.host
      → is_nil (unpublish M p r).0 ≡ true
      → (unpublish M p r).1.caddy.publications ≡ Dict.erase p.host r.caddy.publications
  withdrawn-routes p r e ok =
      ap (λ c. c.publications) (unpublish-table M p r)
      ∙ rw ok (ap (λ host. Dict.erase host r.caddy.publications) (runtime_host-eq p.host ∙ e))

  kept-routes :
      (p : Publication) (r : Runtime M)
      → is_nil (unpublish M p r).0 ≡ false
      → (unpublish M p r).1.caddy.publications ≡ r.caddy.publications
  kept-routes p r failed = ap (λ c. c.publications) (unpublish-table M p r) ∙ rw failed

  -- After the runtime's answer: without the host's routes if it is nil, as before if it is an error.
  withdraw-routes :
      (r : ClaimRecord) (d : Gateway M) (host : String)
      → d.configured ≡ true
      → (r.published ≡ false) ⊎ (r.publication.host ≡ host)
      → canonical_host host ≡ host
      → Dict.lookup host (routes_of M d) ≡ publication_of r
      → (at : String)
      → let done = withdraw (caddy_runtime M) r d.configured d.runtime in
        Dict.lookup at done.1.caddy.publications
        ≡ (if is_nil done.0 && host == at then none else Dict.lookup at (routes_of M d))
  unfolding withdraw
  withdraw-routes r d host c p e h at = elim (Bool-cases r.published) [
    | inl shown ↦
        let place : r.publication.host ≡ host = ground arith in
        elim (Bool-cases (is_nil (unpublish M r.publication d.runtime).0)) [
          | inl ok ↦ ground (
            arith,
            ap (Dict.lookup at) (withdrawn-routes r.publication d.runtime (rw place e) ok),
            Dict.lookup-erase at r.publication.host (routes_of M d),
          )
          | inr failed ↦
              ground (arith, ap (Dict.lookup at) (kept-routes r.publication d.runtime failed))
        ]
    | inr hidden ↦ ground arith
  ]

  module _ (r : ClaimRecord) (host : String) (d : Gateway M) (withdrawn : Error × Runtime M)
      (gone : (at : String)
        → Dict.lookup at withdrawn.1.caddy.publications
          ≡ (if is_nil withdrawn.0 && host == at then none else Dict.lookup at (routes_of M d)))
      (here : Dict.lookup host (routes_of M d) ≡ publication_of r)
      (stays : canonical_host host ≡ host) (a : Agrees M d) where
    -- The claims of a host that is released, and of one whose release has failed.
    abbrev removed : ApiServer
    removed = record d.server { claims = Dict.erase host (Dict.insert host r d.server.claims) }

    abbrev restored : ApiServer
    restored = set_record host (record r { releasing = false }) (set_record host r d.server)

    removed-Agrees :
        is_nil withdrawn.0 ≡ true
        → IsValid removed
        → Agrees M (record d { server = removed; runtime = withdrawn.1 })
    removed-Agrees ok v = record {
      valid = v;
      routes = λ at. ground (
        arith,
        gone at,
        published_at-erase at host (Dict.insert host r d.server.claims),
        published_at-insert at host r d.server.claims,
        a.routes at,
      );
      stable =
          erase-Stable M host (Dict.insert host r d.server.claims)
            (insert-Stable M host r d.server.claims stays a.stable);
      has_runtime = a.has_runtime;
    }

    restored-Agrees :
        is_nil withdrawn.0 ≡ false
        → IsValid restored
        → Agrees M (record d { server = restored; runtime = withdrawn.1 })
    restored-Agrees failed v = record {
      valid = v;
      routes = λ at. ground (
        arith,
        gone at,
        published_at-insert at host (record r { releasing = false })
            (Dict.insert host r d.server.claims),
        published_at-insert at host r d.server.claims,
        a.routes at,
      );
      stable =
          insert-Stable M host (record r { releasing = false }) (Dict.insert host r d.server.claims)
            stays (insert-Stable M host r d.server.claims stays a.stable);
      has_runtime = a.has_runtime;
    }

  -- A release that has begun and ended.
  pub release_claim-Agrees :
      (l : Release) (d : Gateway M) → Agrees M d → Agrees M (release_claim (caddy_runtime M) l d).1
  unfolding release_claim
  release_claim-Agrees l d a = elim (Option-cases (begin_release l d.server).0) [
    | inl refused ↦ rw (refused, release_claim) a
    | inr (r, e) ↦
        let (found, marked, same, table) = begin_release_parts l d.server r e in
        let place =
          found-Consistent l.host (record r { releasing = false }) d.server a.valid found in
        let stays = a.stable l.host (record r { releasing = false }) found in
        let here : Dict.lookup l.host (routes_of M d) ≡ publication_of r =
          a.routes l.host ∙ ground arith in
        let gone = withdraw-routes r d l.host a.has_runtime (ground (arith, place)) stays here in
        let done = withdraw (caddy_runtime M) r d.configured d.runtime in
        let v = release_claim-IsValid (caddy_runtime M) l d a.valid in
        elim (Bool-cases (is_nil done.0)) [
          | inl ok ↦
              rw (e, table, ok, finished l r d.server same, release_claim)
                (removed-Agrees r l.host d done gone here stays a ok
                  (rw (e, table, ok, finished l r d.server same, release_claim) at v))
          | inr failed ↦
              rw (e, table, failed, aborted l r d.server same, release_claim)
                (restored-Agrees r l.host d done gone here stays a failed
                  (rw (e, table, failed, aborted l r d.server same, release_claim) at v))
        ]
  ]

  -- A request that the two tables can stand: a claim's canonical host is its own canonical form.
  abbrev pub IsStableRequest : Request → Type 0
  IsStableRequest q =
      (c : Claim)
      → q.claim ≡ some c
      → canonical_host (canonical_host c.host) ≡ canonical_host c.host

  handle_claim-Agrees :
      (body : Option Claim) (token : String) (d : Gateway M)
      → ((c : Claim)
          → body ≡ some c
          → canonical_host (canonical_host c.host) ≡ canonical_host c.host)
      → Agrees M d
      → Agrees M (record d { server = (handle_claim body token d.server).1 })
  unfolding handle_claim
  handle_claim-Agrees none token d h a = a
  handle_claim-Agrees (some c) token d h a = elim (Bool-cases (c.host == "")) [
    | inl e ↦ rw (e, handle_claim) a
    | inr e ↦ elim (Bool-cases (c.session_id == "")) [
      | inl f ↦ rw (e, f, handle_claim) a
      | inr f ↦
          rw (e, f, handle_claim)
            (claim_host-Agrees M (record c { host = canonical_host c.host }) token d (h c refl)
              (rw (e, f, handle_claim) at (handle_claim-IsValid (some c) token d.server a.valid)) a)
    ]
  ]

  handle_routes-Agrees :
      (body : Option Publication) (d : Gateway M)
      → Agrees M d
      → Agrees M (handle_routes (caddy_runtime M) body d).1
  unfolding handle_routes
  handle_routes-Agrees none d a = ground (arith, a)
  handle_routes-Agrees (some p) d a =
      let p' : Publication = record p { host = canonical_host p.host } in
      let kept =
        publish_routes-Agrees M p' d (publish_routes-IsValid (caddy_runtime M) p' d a.valid) a in
      ground (arith, a.has_runtime, kept)

  handle_release-Agrees :
      (body : Option Release) (d : Gateway M)
      → Agrees M d
      → Agrees M (handle_release (caddy_runtime M) body d).1
  unfolding handle_release
  handle_release-Agrees none d a = a
  handle_release-Agrees (some l) d a =
      release_claim-Agrees (record l { host = canonical_host l.host }) d a

  -- Every request, whatever it asks and however the machine answers, keeps the routes that Caddy serves
  -- equal to the published claims, if the canonical host that it claims is its own canonical form.
  pub serve_http-Agrees :
      (q : Request) (d : Gateway M)
      → IsStableRequest q
      → Agrees M d
      → Agrees M (serve_http (caddy_runtime M) q d).1
  unfolding serve_http
  serve_http-Agrees q d h a = ground (
    arith,
    a,
    handle_claim-Agrees q.claim q.token d h a,
    handle_routes-Agrees q.publication d a,
    handle_release-Agrees q.release d a,
  )

  -- So after any such requests.
  pub serve-Agrees :
      (qs : List Request) (d : Gateway M)
      → All IsStableRequest qs
      → Agrees M d
      → Agrees M (serve (caddy_runtime M) qs d)
  unfolding serve
  serve-Agrees [] d h a = a
  serve-Agrees (q ∷ qs) d h a =
      serve-Agrees qs (serve_http (caddy_runtime M) q d).1 h.1 (serve_http-Agrees q d h.0 a)
