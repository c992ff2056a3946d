-- ===== src/Gateway/Holding.antt =====
-- internal/daemon/start.go: what the daemon keeps for a release to come.
use zerobased.Base.{
  ◌≡◌, ◌⊎◌, inl, inr, subst, true, false, Option, none, some, arith, ◌==◌, string_eq, nat_eq, leb,
  Bool-cases, Option-cases,
}
use zerobased.Base.Dict
use zerobased.Base.Text.{Unicode}
use zerobased.Controlplane.{Publication, Release}
use zerobased.Zberr.Errors.{is_nil}
use zerobased.Daemon.Runtime.{RouteRuntime}
use zerobased.Daemon.Server.{ClaimRecord, no_content, canonical_host, matches_release}
use zerobased.Daemon.Handlers.{Daemon, active_claim, publish_routes, handle_routes, release_claim}
use zerobased.Daemon.Invariant.{active_claim-matches}

module _ ⦃t : Unicode⦄ (R : RouteRuntime) where
  -- The record of a host that a release will match, if nothing else ends it.
  abbrev pub Held : Release → Daemon R → Type 0
  Held l d =
      (r : ClaimRecord) × (Dict.lookup l.host d.server.claims ≡ some r)
      × (matches_release r l ≡ true)
      × (r.releasing ≡ false)

  publish_routes-Held :
      (l : Release) (p : Publication) (d : Daemon R) → Held l d → Held l (publish_routes R p d).1
  unfolding publish_routes matches_release
  publish_routes-Held l p d (r, found, same, free) = elim (Option-cases (active_claim p d.server)) [
    | inl e ↦ (r, ground arith, same, free)
    | inr (q, e) ↦
        let (there, _, _) = active_claim-matches p d.server q e in
        let updated : ClaimRecord = record q { published = true; publication = p } in
        let looked = Dict.lookup-insert l.host p.host updated d.server.claims in
        let (err, runtime) = R.publish p d.runtime in
        elim (Bool-cases (is_nil err)) [
          | inr bad ↦ (r, ground arith, same, free)
          | inl ok ↦ elim (Bool-cases (p.host == l.host)) [
            | inr other ↦ (r, ground (arith, looked), same, free)
            | inl here ↦ (updated, ground (arith, looked), ground arith, ground arith)
          ]
        ]
  ]

  pub handle_routes-Held :
      (l : Release) (body : Option Publication) (d : Daemon R)
      → Held l d
      → Held l (handle_routes R body d).1
  unfolding handle_routes
  handle_routes-Held l none d held =
      let same : d ≡ (handle_routes R none d).1 = ground arith in subst (Held l) same held
  handle_routes-Held l (some p) d held =
      let named : Publication = record p { host = canonical_host p.host } in
      elim (Bool-cases d.configured) [
        | inr off ↦
            let same : d ≡ (handle_routes R (some p) d).1 = ground arith in subst (Held l) same held
        | inl on ↦
            let same : (publish_routes R named d).1 ≡ (handle_routes R (some p) d).1 =
              ground arith in
            subst (Held l) same (publish_routes-Held l named d held)
      ]

  pub release_claim-answers :
      (l : Release) (d : Daemon R)
      → ((release_claim R l d).0 ≡ no_content) ⊎ (leb 300 ((release_claim R l d).0.status) ≡ true)
  unfolding release_claim
  release_claim-answers l d = ground arith
