-- ===== src/Gateway/Agreement.antt =====
-- The routes that Caddy serves are the published claims of the daemon.
use zerobased.Base.{
  String, ◌≡◌, sym, ap, ◌∙◌, true, false, Option, none, some, arith, ◌==◌, string_eq, if◌then◌else◌,
  Option-cases, Bool-cases, inl, inr,
}
use zerobased.Base.Dict
use zerobased.Base.Dict.{Dict}
use zerobased.Base.Text.{Unicode}
use zerobased.Controlplane.{Claim, Publication}
use zerobased.Zberr.Errors.{is_nil}
use zerobased.Daemon.Runtime.{RouteRuntime}
use zerobased.Daemon.Server.{
  ApiServer, ClaimRecord, new_record, next_generation, canonical_host, claim_host,
}
use zerobased.Daemon.Handlers.{Daemon, active_claim, set_record, publish_routes}
use zerobased.Daemon.Invariant.{IsValid, active_claim-matches}
use zerobased.RouteRuntime.Machine.{Machine}
use zerobased.RouteRuntime.Caddy.{Runtime, publish, unpublish}
use zerobased.RouteRuntime.Hosts.{runtime_host-eq}
use zerobased.RouteRuntime.Publishing.{addressed, publish-caddy}

abbrev pub caddy_runtime : ⦃t : Unicode⦄ → Machine → RouteRuntime
caddy_runtime M = record { State = Runtime M; publish = publish M; unpublish = unpublish M }

abbrev pub publication_of : ClaimRecord → Option Publication
publication_of r = if r.published then some r.publication else none

-- What the daemon has published for a host.
abbrev pub published_at : String → Dict ClaimRecord → Option Publication
published_at host claims = elim (Dict.lookup host claims) [
  | none ↦ none
  | some r ↦ publication_of r
]

pub published_at-insert :
    (at host : String) (r : ClaimRecord) (claims : Dict ClaimRecord)
    → published_at at (Dict.insert host r claims)
      ≡ (if host == at then publication_of r else published_at at claims)
published_at-insert at host r claims = ground (arith, Dict.lookup-insert at host r claims)

pub published_at-erase :
    (at host : String) (claims : Dict ClaimRecord)
    → published_at at (Dict.erase host claims)
      ≡ (if host == at then none else published_at at claims)
published_at-erase at host claims = ground (arith, Dict.lookup-erase at host claims)

module _ ⦃t : Unicode⦄ (M : Machine) where
  abbrev pub Gateway : Type 0
  Gateway = Daemon (caddy_runtime M)

  abbrev pub routes_of : Gateway → Dict Publication
  routes_of d = d.runtime.caddy.publications

  -- Every claimed host is its own canonical form.
  abbrev pub Stable : Dict ClaimRecord → Type 0
  Stable claims =
      (host : String) (r : ClaimRecord)
      → Dict.lookup host claims ≡ some r
      → canonical_host host ≡ host

  -- Caddy's table holds, for every host, what the daemon has published for it; claimed hosts are their
  -- own canonical form; the daemon has a runtime.
  pub record Agrees (d : Gateway) : Type 0 where
    pub valid : IsValid d.server
    pub routes :
        (host : String) → Dict.lookup host (routes_of d) ≡ published_at host d.server.claims
    pub stable : Stable d.server.claims
    pub has_runtime : d.configured ≡ true

  claim_host-published :
      (claim : Claim) (token : String) (s : ApiServer) (host : String)
      → published_at host (claim_host claim token s).1.claims ≡ published_at host s.claims
  unfolding claim_host
  claim_host-published claim token s host = ground (
    arith,
    Dict.lookup-insert host claim.host (new_record claim token (next_generation s)) s.claims,
  )

  pub insert-Stable :
      (at : String) (q : ClaimRecord) (claims : Dict ClaimRecord)
      → canonical_host at ≡ at
      → Stable claims
      → Stable (Dict.insert at q claims)
  insert-Stable at q claims e k host r h =
      ground (arith, Dict.lookup-insert host at q claims, k host r)

  pub erase-Stable :
      (at : String) (claims : Dict ClaimRecord) → Stable claims → Stable (Dict.erase at claims)
  erase-Stable at claims k host r h = ground (arith, Dict.lookup-erase host at claims, k host r)

  claim_host-Stable :
      (claim : Claim) (token : String) (s : ApiServer)
      → canonical_host claim.host ≡ claim.host
      → Stable s.claims
      → Stable (claim_host claim token s).1.claims
  unfolding claim_host
  claim_host-Stable claim token s e k =
      let fresh =
        insert-Stable claim.host (new_record claim token (next_generation s)) s.claims e k in
      elim (Option-cases (Dict.lookup claim.host s.claims)) [
        | inl free ↦ rw (free, claim_host) fresh
        | inr (r, found) ↦ λ host q h. ground (arith, k host q)
      ]

  pub claim_host-Agrees :
      (claim : Claim) (token : String) (d : Gateway)
      → canonical_host claim.host ≡ claim.host
      → IsValid (claim_host claim token d.server).1
      → Agrees d
      → Agrees (record d { server = (claim_host claim token d.server).1 })
  claim_host-Agrees claim token d e v a = record {
    valid = v;
    routes = λ host. a.routes host ∙ sym (claim_host-published claim token d.server host);
    stable = claim_host-Stable claim token d.server e a.stable;
    has_runtime = a.has_runtime;
  }

  addressed_stable : (p : Publication) → canonical_host p.host ≡ p.host → addressed p ≡ p
  addressed_stable p e = ap (λ host. record p { host = host }) (runtime_host-eq p.host ∙ e)

  published-routes :
      (p : Publication) (r : Runtime M)
      → canonical_host p.host ≡ p.host
      → is_nil (publish M p r).0 ≡ true
      → (publish M p r).1.caddy.publications ≡ Dict.insert p.host p r.caddy.publications
  published-routes p r e ok =
      ap (λ c. c.publications) (publish-caddy M p r)
      ∙ rw ok (ap (λ q. Dict.insert q.host q r.caddy.publications) (addressed_stable p e))

  -- The record that a publication leaves, with the runtime's answer nil.
  published-Agrees :
      (p : Publication) (r : ClaimRecord) (d : Gateway)
      → canonical_host p.host ≡ p.host
      → is_nil (publish M p d.runtime).0 ≡ true
      → let s = set_record p.host (record r { published = true; publication = p }) d.server in
        IsValid s → Agrees d → Agrees (record d { server = s; runtime = (publish M p d.runtime).1 })
  published-Agrees p r d e ok v a =
      let q : ClaimRecord = record r { published = true; publication = p } in
      let caddy = published-routes p d.runtime e ok in
      record {
        valid = v;
        routes = λ host.
            ap (Dict.lookup host) caddy
            ∙ ground (
              arith,
              Dict.lookup-insert host p.host p (routes_of d),
              published_at-insert host p.host q d.server.claims,
              a.routes host,
            );
        stable = insert-Stable p.host q d.server.claims e a.stable;
        has_runtime = a.has_runtime;
      }

  -- A call of the runtime that leaves its fields alone.
  unmoved-Agrees :
      (d : Gateway) (r : Runtime M)
      → r.caddy ≡ d.runtime.caddy
      → Agrees d
      → Agrees (record d { runtime = r })
  unmoved-Agrees d r e a = record {
    valid = a.valid;
    routes = λ host. rw e (a.routes host);
    stable = a.stable;
    has_runtime = a.has_runtime;
  }

  refused-caddy :
      (p : Publication) (r : Runtime M)
      → is_nil (publish M p r).0 ≡ false
      → (publish M p r).1.caddy ≡ r.caddy
  refused-caddy p r failed = publish-caddy M p r ∙ rw failed

  pub publish_routes-Agrees :
      (p : Publication) (d : Gateway)
      → IsValid (publish_routes (caddy_runtime M) p d).1.server
      → Agrees d
      → Agrees (publish_routes (caddy_runtime M) p d).1
  unfolding publish_routes
  publish_routes-Agrees p d v a = elim (Option-cases (active_claim p d.server)) [
    | inl none_found ↦ rw (none_found, publish_routes) a
    | inr (r, e) ↦
        let (found, _, _) = active_claim-matches p d.server r e in
        elim (Bool-cases (is_nil (publish M p d.runtime).0)) [
          | inl ok ↦
              rw (e, ok, publish_routes)
                (published-Agrees p r d (a.stable p.host r found) ok
                  (rw (e, ok, publish_routes) at v) a)
          | inr failed ↦
              rw (e, failed, publish_routes)
                (unmoved-Agrees d (publish M p d.runtime).1 (refused-caddy p d.runtime failed) a)
        ]
  ]
