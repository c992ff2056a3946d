-- ===== src/Daemon/Interleaving/Safety.antt =====
-- A pending release keeps its host to itself, whatever the other requests do.
use zerobased.Base.{
  String, ◌≡◌, ◌≢◌, true, false, inl, inr, Option, none, some, [], arith, ◌==◌, string_eq,
  if◌then◌else◌, Option-cases,
}
use zerobased.Base.Dict
use zerobased.Base.Dict.{Dict}
use zerobased.Base.Text.{Unicode}
use zerobased.Controlplane.{Claim, Publication, Release}
use zerobased.Zberr.Errors.{Error, is_nil}
use zerobased.Daemon.Runtime.{RouteRuntime}
use zerobased.Daemon.Server.{
  ApiServer, ClaimRecord, init, matches_release, new_record, next_generation, canonical_host,
  claim_host, handle_claim,
}
use zerobased.Daemon.Handlers.{
  Daemon, active_claim, set_record, begin_release, abort_release, finish_release, publish_routes,
  withdraw,
}
use zerobased.Daemon.Invariant.{begin_release_parts}
use zerobased.Daemon.Interleaving.{
  Pending, System, claims_of, end_release, answered, begun, ended, Step, takes_claim,
  takes_publication, begins, answers, ends, Reach, here, next,
}

-- What a pending release may count on at its host.
abbrev pub Guarded : String → Pending → Dict ClaimRecord → Type 0
Guarded host p claims =
    (Dict.lookup host claims ≡ some p.held)
    × (p.held.releasing ≡ true)
    × (matches_release p.held p.release ≡ true)
    × (p.release.host ≡ host)

-- Every pending release is guarded, and every record that is marked has a pending release.
module _ (R : RouteRuntime) where
  pub record IsSafe (c : System R) : Type 0 where
    pub guarded :
        (host : String) (p : Pending)
        → Dict.lookup host c.pending ≡ some p
        → Guarded host p (claims_of R c)
    pub owned :
        (host : String) (r : ClaimRecord)
        → Dict.lookup host (claims_of R c) ≡ some r
        → r.releasing ≡ true
        → Dict.lookup host c.pending ≢ none

-- A critical section that leaves marked records alone and marks none keeps the table of a safe system.
abbrev Respects : Dict ClaimRecord → Dict ClaimRecord → Type 0
Respects before after =
    (host : String) (r : ClaimRecord)
    → r.releasing ≡ true
    → (Dict.lookup host before ≡ some r → Dict.lookup host after ≡ some r)
      × (Dict.lookup host after ≡ some r → Dict.lookup host before ≡ some r)

claim_host-Respects :
    (claim : Claim) (token : String) (s : ApiServer)
    → Respects s.claims (claim_host claim token s).1.claims
unfolding claim_host
claim_host-Respects claim token s host r marked =
    let known =
      Dict.lookup-insert host claim.host (new_record claim token (next_generation s)) s.claims in
    (λ e. ground (arith, known), λ e. ground (arith, known))

module _ ⦃t : Unicode⦄ where
  handle_claim-Respects :
      (body : Option Claim) (token : String) (s : ApiServer)
      → Respects s.claims (handle_claim body token s).1.claims
  unfolding handle_claim
  handle_claim-Respects none token s host r marked = (λ e. e, λ e. e)
  handle_claim-Respects (some claim) token s host r marked =
      let rest =
        claim_host-Respects (record claim { host = canonical_host claim.host }) token s host r
          marked in
      (λ e. ground (arith, rest.0 e), λ e. ground (arith, rest.1))

module _ ⦃t : Unicode⦄ (R : RouteRuntime) where
  publish_routes-Respects :
      (p : Publication) (d : Daemon R)
      → Respects d.server.claims (publish_routes R p d).1.server.claims
  unfolding publish_routes active_claim
  publish_routes-Respects p d host r marked =
      elim (Option-cases (Dict.lookup p.host d.server.claims)) [
        | inl free ↦ (λ e. ground arith, λ e. ground arith)
        | inr (q, found) ↦
            let known =
              Dict.lookup-insert host p.host (record q { published = true; publication = p })
                d.server.claims in
            (λ e. ground (arith, known), λ e. ground (arith, known))
      ]

  -- Such a step keeps the system safe.
  Respects-IsSafe :
      (c : System R) (d : Daemon R)
      → Respects (claims_of R c) d.server.claims
      → IsSafe R c
      → IsSafe R (record c { daemon = d })
  Respects-IsSafe c d respects v = record {
    guarded =
        λ host p e. let g = v.guarded host p e in ((respects host p.held g.1).0 g.0, g.1, g.2, g.3);
    owned = λ host r e marked. v.owned host r ((respects host r marked).1 e) marked;
  }

  begins-IsSafe :
      (c : System R) (l : Release) (r : ClaimRecord)
      → (begin_release l c.daemon.server).0 ≡ some r
      → IsSafe R c
      → IsSafe R (begun R c l r)
  begins-IsSafe c l r e v =
      let (found, marked, same, table) = begin_release_parts l c.daemon.server r e in
      let now = λ (host : String). Dict.lookup-insert host l.host r (claims_of R c) in
      let p : Pending = record { release = l; held = r; answer = none } in
      let waits = λ (host : String). Dict.lookup-insert host l.host p c.pending in
      record {
        guarded = λ host q h. rw table (ground (arith, now host, waits host, v.guarded host q));
        owned = λ host q h m.
            let h' : Dict.lookup host (set_record l.host r c.daemon.server).claims ≡ some q =
              rw table at h in
            ground (arith, now host, waits host, v.owned host q);
      }

  answers-IsSafe :
      (c : System R) (host : String) (p : Pending)
      → Dict.lookup host c.pending ≡ some p
      → IsSafe R c
      → IsSafe R (answered R c host p)
  answers-IsSafe c host p e v =
      let err = (withdraw R p.held c.daemon.configured c.daemon.runtime).0 in
      let waits =
        λ (at : String). Dict.lookup-insert at host (record p { answer = some err }) c.pending in
      record {
        guarded = λ at q h. ground (arith, waits at, v.guarded at q, v.guarded at p);
        owned = λ at q h m. ground (arith, waits at, v.owned at q);
      }

  -- The last critical section finds the record that the first one left, and removes it or takes its mark off.
  claims-end_release :
      (s : ApiServer) (host : String) (p : Pending) (err : Error)
      → Guarded host p s.claims
      → (end_release p err s).claims ≡ (
          if is_nil err
          then Dict.erase host s.claims
          else Dict.insert host (record p.held { releasing = false }) s.claims)
  unfolding finish_release abort_release
  claims-end_release s host p err g = ground (arith, g.0, g.2, g.3)

  lookup-end_release :
      (s : ApiServer) (host at : String) (p : Pending) (err : Error)
      → Guarded host p s.claims
      → Dict.lookup at (end_release p err s).claims ≡ (
          if host == at
          then (if is_nil err then none else some (record p.held { releasing = false }))
          else Dict.lookup at s.claims)
  lookup-end_release s host at p err g = rw (claims-end_release s host p err g) (
      ground (
        arith,
        Dict.lookup-erase at host s.claims,
        Dict.lookup-insert at host (record p.held { releasing = false }) s.claims,
      ))

  ends-IsSafe :
      (c : System R) (host : String) (p : Pending) (err : Error)
      → Dict.lookup host c.pending ≡ some p
      → IsSafe R c
      → IsSafe R (ended R c host p err)
  ends-IsSafe c host p err e v =
      let g = v.guarded host p e in
      let now = λ (at : String). lookup-end_release c.daemon.server host at p err g in
      let waits = λ (at : String). Dict.lookup-erase at host c.pending in
      record {
        guarded = λ at q h. ground (arith, now at, waits at, v.guarded at q);
        owned = λ at q h m. ground (arith, now at, waits at, v.owned at q);
      }

  pub Step-IsSafe : {c d : System R} → Step R c d → IsSafe R c → IsSafe R d
  Step-IsSafe {c} (takes_claim body token) v =
      Respects-IsSafe c (record c.daemon { server = (handle_claim body token c.daemon.server).1 })
        (handle_claim-Respects body token c.daemon.server) v
  Step-IsSafe {c} (takes_publication p) v =
      Respects-IsSafe c (publish_routes R p c.daemon).1 (publish_routes-Respects p c.daemon) v
  Step-IsSafe {c} (begins l r e) v = begins-IsSafe c l r e v
  Step-IsSafe {c} (answers host p e a) v = answers-IsSafe c host p e v
  Step-IsSafe {c} (ends host p err e a) v = ends-IsSafe c host p err e v

  pub Reach-IsSafe : {c d : System R} → Reach R c d → IsSafe R c → IsSafe R d
  Reach-IsSafe here v = v
  Reach-IsSafe (next r st) v = Step-IsSafe st (Reach-IsSafe r v)

  -- However other requests interleave with a release, the host's record is still the one that the
  -- release marked when its last critical section runs: that section removes the record if the runtime
  -- withdrew the routes, restores it unmarked if the runtime failed, and leaves every other host alone.
  pub release_isolated :
      {c d : System R} (host : String) (p : Pending) (err : Error) (at : String)
      → IsSafe R c
      → Reach R c d
      → Dict.lookup host d.pending ≡ some p
      → (Dict.lookup host (claims_of R d) ≡ some p.held)
        × (Dict.lookup at (claims_of R (ended R d host p err)) ≡ (
            if host == at
            then (if is_nil err then none else some (record p.held { releasing = false }))
            else Dict.lookup at (claims_of R d)))
  release_isolated {c} {d} host p err at v reached e =
      let g = (Reach-IsSafe reached v).guarded host p e in
      (g.0, lookup-end_release d.daemon.server host at p err g)

  -- A daemon that has no claims and no release under way is safe.
  pub IsSafe-idle :
      (d : Daemon R) → d.server ≡ init → IsSafe R (record { daemon = d; pending = [] })
  IsSafe-idle d e = record {
    guarded = λ host p h. cc (h, Dict.lookup-empty {V = Pending} host);
    owned = λ host r h m. cc (h, e, Dict.lookup-empty {V = ClaimRecord} host);
  }
