-- ===== src/Daemon/Generations/Replay.antt =====
-- internal/daemon/start.go: a receipt that was given back opens nothing, whoever claims the host next.
use Prim.Native.Nat.{◌^◌}
use zerobased.Base.{
  ℕ, ◌+◌, ◌≤◌, ◌<◌, String, ◌≡◌, refl, sym, subst, false, ◌⊎◌, inl, inr, none, some, List, [], ◌∷◌,
  arith, string_eq, nat_eq, Option-cases, Bool-cases, length,
}
use zerobased.Base.Dict
use zerobased.Base.Text.{Unicode}
use zerobased.Controlplane.{Publication, Release}
use zerobased.Zberr.Errors.{is_nil}
use zerobased.Daemon.Runtime.{RouteRuntime}
use zerobased.Daemon.Server.{
  ApiServer, ClaimRecord, new_record, next_generation, canonical_host, matches_publication,
  matches_release, no_content,
}
use zerobased.Daemon.Handlers.{
  Daemon, Request, active_claim, begin_release, finish_release, withdraw, publish_routes,
  handle_routes, release_claim, handle_release, serve_http, serve, stale, set_record,
}
use zerobased.Daemon.Invariant.{begin_release_parts}
use zerobased.Daemon.Generations.{
  Numbered, Steps, next_generation_small, serve_http-Steps, Steps-generation, release_claim-Keeps,
}

-- The generation was given, and the host's record, if it has one, has a later one.
abbrev pub Past : String → ℕ → ApiServer → Type 0
Past host g s =
    (g ≤ s.generation) × ((r : ClaimRecord) → Dict.lookup host s.claims ≡ some r → g < r.generation)

Steps-Past :
    (host : String) (g : ℕ) (s next : ApiServer)
    → Steps s next
    → s.generation + 1 < 2 ^ 64
    → Past host g s
    → Past host g next
Steps-Past host g s next step few (given, later) = elim step [
  | inl kept ↦ (
    ground (arith, kept.same),
    λ r e. let (q, found, same) = kept.kept host r e in ground (arith, later q found),
  )
  | inr (claim, token, free, e) ↦
      let counted = next_generation_small s few in
      subst (Past host g) (sym e) (
        ground (arith, counted),
        λ r found. ground (
          arith,
          counted,
          Dict.lookup-insert host claim.host (new_record claim token (next_generation s)) s.claims,
          later r,
        ),
      )
]

module _ ⦃t : Unicode⦄ (R : RouteRuntime) where
  serve-Past :
      (host : String) (g : ℕ) (qs : List Request) (d : Daemon R)
      → d.server.generation + length qs < 2 ^ 64
      → Past host g d.server
      → Past host g (serve R qs d).server
  unfolding serve
  serve-Past host g [] d few p = p
  serve-Past host g (q ∷ qs) d few p =
      let next = (serve_http R q d).1 in
      let step = serve_http-Steps R q d in
      let one = Steps-generation d.server next.server step (omega arith) in
      serve-Past host g qs next (omega arith)
        (Steps-Past host g d.server next.server step (omega arith) p)

  -- A release that is answered without an error has found the record with its generation, and removed it.
  pub released :
      (l : Release) (d : Daemon R)
      → (release_claim R l d).0 ≡ no_content
      → (r : ClaimRecord) × (Dict.lookup l.host d.server.claims ≡ some r)
        × (r.generation ≡ l.generation)
        × (Dict.lookup l.host (release_claim R l d).1.server.claims ≡ none)
  unfolding release_claim finish_release matches_release
  released l d answered = elim (Option-cases (begin_release l d.server).0) [
    | inl e ↦ absurd (ground arith)
    | inr (r, e) ↦
        let (found, marked, same, begun) = begin_release_parts l d.server r e in
        let marking = set_record l.host r d.server in
        let (err, runtime) = withdraw R r d.configured d.runtime in
        let ended : finish_release l marking
            ≡ record marking { claims = Dict.erase l.host marking.claims } =
          ground (arith, Dict.lookup-insert l.host l.host r d.server.claims) in
        (
          record r { releasing = false },
          found,
          ground arith,
          elim (Bool-cases (is_nil err)) [
            | inl ok ↦
                let done : release_claim R l d ≡ (
                  no_content,
                  record d { server = finish_release l marking; runtime = runtime },
                ) =
                  rw (release_claim, e, ok, begun) refl in
                rw (done, ended, Dict.lookup-erase l.host l.host marking.claims) (ground arith)
            | inr bad ↦ absurd (ground arith)
          ],
        )
  ]

  released-Past :
      (l : Release) (d : Daemon R)
      → Numbered d.server
      → (release_claim R l d).0 ≡ no_content
      → Past l.host l.generation (release_claim R l d).1.server
  released-Past l d n answered =
      let (r, found, same, free) = released l d answered in
      let kept = release_claim-Keeps R l d in
      (ground (arith, n.bounded l.host r found, kept.same), λ q held. absurd (ground arith))

  -- Behind a later generation, a release and a publication are refused.
  release-refused :
      (l : Release) (d : Daemon R)
      → Past l.host l.generation d.server
      → release_claim R l d ≡ (stale "release does not match an active claim", d)
  unfolding release_claim begin_release matches_release
  release-refused l d (given, later) = elim (Option-cases (Dict.lookup l.host d.server.claims)) [
    | inl e ↦ ground arith
    | inr (r, e) ↦ ground (arith, later r e)
  ]

  publish-refused :
      (p : Publication) (d : Daemon R)
      → Past p.host p.generation d.server
      → publish_routes R p d ≡ (stale "publication does not match an active claim", d)
  unfolding publish_routes active_claim matches_publication
  publish-refused p d (given, later) = elim (Option-cases (Dict.lookup p.host d.server.claims)) [
    | inl e ↦ ground arith
    | inr (r, e) ↦ ground (arith, later r e)
  ]

  -- After a release that was answered with 204, from a daemon whose generations are numbered, and any
  -- requests in a row, with fewer than 2 ^ 64 generations given, the same release is refused as stale, and a
  -- publication of its host with its generation, whatever token it has, is not accepted; both leave the
  -- daemon and its runtime as they are, though another project may hold the host by then.
  pub receipt_not_replayed :
      (l : Release) (qs : List Request) (d : Daemon R)
      → Numbered d.server
      → d.server.generation + length qs < 2 ^ 64
      → (handle_release R (some l) d).0 ≡ no_content
      → let later = serve R qs (handle_release R (some l) d).1 in
        (handle_release R (some l) later ≡ (stale "release does not match an active claim", later))
        × ((p : Publication)
            → canonical_host p.host ≡ canonical_host l.host
            → p.generation ≡ l.generation
            → ((handle_routes R (some p) later).1 ≡ later)
              × (((handle_routes R (some p) later).0.status ≡ 409)
                  ⊎ ((handle_routes R (some p) later).0.status ≡ 503)))
  unfolding handle_release handle_routes
  receipt_not_replayed l qs d n few answered =
      let named : Release = record l { host = canonical_host l.host } in
      let next = (release_claim R named d).1 in
      let past =
        serve-Past named.host named.generation qs next
          (ground (arith, (release_claim-Keeps R named d).same))
          (released-Past named d n answered) in
      (
        release-refused named (serve R qs next) past,
        λ p host generation.
            let published : Publication = record p { host = canonical_host p.host } in
            let refused =
              publish-refused published (serve R qs next) (rw (host, generation) past) in
            ground (arith, refused),
      )
