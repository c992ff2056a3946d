-- ===== src/Daemon/Generations.antt =====
-- internal/daemon/start.go: the generations of the claims, which the server counts.
pub mod Keeping
pub mod Replay
use Prim.Native.Nat.{◌^◌}
use zerobased.Base.{
  ◌+◌, ◌≤◌, ◌<◌, String, ◌≡◌, refl, sym, subst, true, ◌⊎◌, inl, inr, Option, none, some, List, [],
  ◌∷◌, arith, string_eq, Option-cases, length,
}
use zerobased.Base.Dict
use zerobased.Base.Text.{Unicode}
use zerobased.Controlplane.{Claim, Publication, Release}
use zerobased.Daemon.Runtime.{RouteRuntime}
use zerobased.Daemon.Server.{ApiServer, canonical_host, claim_host, handle_claim}
use zerobased.Daemon.Handlers.{
  Daemon, Request, active_claim, begin_release, abort_release, finish_release, publish_routes,
  handle_routes, release_claim, handle_release, serve_http, serve,
}
use zerobased.Daemon.Invariant.{active_claim-matches}
pub use zerobased.Daemon.Generations.Keeping.{
  Numbered, init-Numbered, Keeps, granted, next_generation_small,
}
use zerobased.Daemon.Generations.Keeping.{
  set_record-Keeps, begin_release-Keeps, abort_release-Keeps, finish_release-Keeps, Keeps-refl,
  Keeps-trans, Keeps-Numbered, granted-Numbered, claim_host-steps,
}

-- What a request does to the generations.
abbrev pub Steps : ApiServer → ApiServer → Type 0
Steps s next =
    Keeps s next
    ⊎ ((claim : Claim) × (token : String) × (Dict.lookup claim.host s.claims ≡ none)
        × (next ≡ granted claim token s))

pub Steps-generation :
    (s next : ApiServer)
    → Steps s next
    → s.generation + 1 < 2 ^ 64
    → next.generation ≤ s.generation + 1
Steps-generation s next step few = elim step [
  | inl kept ↦ ground (arith, kept.same)
  | inr (claim, token, free, e) ↦ ground (arith, next_generation_small s few)
]

claim_host-Steps :
    (claim : Claim) (token : String) (s : ApiServer) → Steps s (claim_host claim token s).1
claim_host-Steps claim token s = elim (claim_host-steps claim token s) [
  | inl same ↦ inl (subst (Keeps s) (sym same) (Keeps-refl s))
  | inr (free, e) ↦ inr (claim, token, free, e)
]

module _ ⦃t : Unicode⦄ where
  handle_claim-Steps :
      (body : Option Claim) (token : String) (s : ApiServer) → Steps s (handle_claim body token s).1
  unfolding handle_claim
  handle_claim-Steps none token s = inl (Keeps-refl s)
  handle_claim-Steps (some claim) token s = ground (
    arith,
    Keeps-refl s,
    claim_host-Steps (record claim { host = canonical_host claim.host }) token s,
  )

module _ ⦃t : Unicode⦄ (R : RouteRuntime) where
  publish_routes-Keeps :
      (p : Publication) (d : Daemon R) → Keeps d.server (publish_routes R p d).1.server
  unfolding publish_routes
  publish_routes-Keeps p d = elim (Option-cases (active_claim p d.server)) [
    | inl e ↦ rw (e, publish_routes) (Keeps-refl d.server)
    | inr (r, e) ↦
        let (found, _, _) = active_claim-matches p d.server r e in
        let set =
          set_record-Keeps p.host (record r { published = true; publication = p }) r d.server found
            refl in
        rw (e, publish_routes) (ground (arith, Keeps-refl d.server, set))
  ]

  handle_routes-Keeps :
      (body : Option Publication) (d : Daemon R) → Keeps d.server (handle_routes R body d).1.server
  unfolding handle_routes
  handle_routes-Keeps none d = ground (arith, Keeps-refl d.server)
  handle_routes-Keeps (some p) d = ground (
    arith,
    Keeps-refl d.server,
    publish_routes-Keeps (record p { host = canonical_host p.host }) d,
  )

  pub release_claim-Keeps :
      (l : Release) (d : Daemon R) → Keeps d.server (release_claim R l d).1.server
  unfolding release_claim
  release_claim-Keeps l d =
      let begun = (begin_release l d.server).1 in
      let first = begin_release-Keeps l d.server in
      ground (
        arith,
        Keeps-refl d.server,
        Keeps-trans d.server begun (abort_release l begun) first (abort_release-Keeps l begun),
        Keeps-trans d.server begun (finish_release l begun) first (finish_release-Keeps l begun),
      )

  handle_release-Keeps :
      (body : Option Release) (d : Daemon R) → Keeps d.server (handle_release R body d).1.server
  unfolding handle_release
  handle_release-Keeps none d = Keeps-refl d.server
  handle_release-Keeps (some l) d =
      release_claim-Keeps (record l { host = canonical_host l.host }) d

  pub serve_http-Steps : (q : Request) (d : Daemon R) → Steps d.server (serve_http R q d).1.server
  unfolding serve_http
  serve_http-Steps q d = ground (
    arith,
    Keeps-refl d.server,
    handle_claim-Steps q.claim q.token d.server,
    handle_routes-Keeps q.publication d,
    handle_release-Keeps q.release d,
  )

  -- One request.
  serve_http-Numbered :
      (q : Request) (d : Daemon R)
      → d.server.generation + 1 < 2 ^ 64
      → Numbered d.server
      → Numbered (serve_http R q d).1.server
        × ((serve_http R q d).1.server.generation ≤ d.server.generation + 1)
  serve_http-Numbered q d few n =
      let step = serve_http-Steps q d in
      (
        elim step [
          | inl kept ↦ Keeps-Numbered d.server (serve_http R q d).1.server kept n
          | inr (claim, token, free, e) ↦
              subst Numbered (sym e) (granted-Numbered claim token d.server few n)
        ],
        Steps-generation d.server (serve_http R q d).1.server step few,
      )

  -- While the server has given fewer than 2 ^ 64 generations, after any requests in a row every record has a
  -- generation from 1 to the server's, records of two hosts have two generations, and the server has given
  -- no more generations than there were requests, if the first two held before.
  pub serve-Numbered :
      (qs : List Request) (d : Daemon R)
      → d.server.generation + length qs < 2 ^ 64
      → Numbered d.server
      → Numbered (serve R qs d).server
        × ((serve R qs d).server.generation ≤ d.server.generation + length qs)
  unfolding serve
  serve-Numbered [] d few n = (n, omega arith)
  serve-Numbered (q ∷ qs) d few n =
      let (now, one) = serve_http-Numbered q d (omega arith) n in
      let (last, rest) = serve-Numbered qs (serve_http R q d).1 (omega arith) now in
      (last, omega arith)
