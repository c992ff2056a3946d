-- ===== src/Daemon/Handlers.antt =====
-- internal/daemon/start.go: the handlers that call the route runtime, and the dispatch of a request.
-- A release gives up the mutex while the runtime works: `begin_release` and the two ends of a release
-- are its critical sections, and `handle_release` is the three in a row.
use zerobased.Base.{
  String, Bool, true, false, not, ◌&&◌, ◌||◌, Option, none, some, List, [], ◌∷◌, ◌==◌, string_eq,
  if◌then◌else◌,
}
use zerobased.Base.Dict
use zerobased.Base.Text.{Unicode}
use zerobased.Controlplane.{Claim, Publication, Release}
use zerobased.Zberr.Layer
use zerobased.Zberr.Code
use zerobased.Zberr.Errors.{Error, nil, is_nil, text}
use zerobased.Daemon.Runtime.{RouteRuntime}
use zerobased.Daemon.Server.{
  ApiServer, ClaimRecord, Response, not_found, write_json, write_zb_error, no_content,
  canonical_host, matches_publication, matches_release, handle_claim,
}

-- The record that `handleRoutes` looks up, if it lets the publication pass.
unfoldable pub active_claim : Publication → ApiServer → Option ClaimRecord
active_claim p s = elim (Dict.lookup p.host s.claims) [
  | none ↦ none
  | some r ↦ if r.releasing || not (matches_publication r p) then none else some r
]

abbrev pub set_record : String → ClaimRecord → ApiServer → ApiServer
set_record host r s = record s { claims = Dict.insert host r s.claims }

-- The first critical section of `handleRelease`: the record, marked as releasing.
unfoldable pub begin_release : Release → ApiServer → Option ClaimRecord × ApiServer
begin_release l s = elim (Dict.lookup l.host s.claims) [
  | none ↦ (none, s)
  | some r ↦
      if r.releasing || not (matches_release r l)
      then (none, s)
      else let r' = record r { releasing = true } in (some r', set_record l.host r' s)
]

-- The critical section after an unpublication that failed.
unfoldable pub abort_release : Release → ApiServer → ApiServer
abort_release l s = elim (Dict.lookup l.host s.claims) [
  | none ↦ s
  | some r ↦ if matches_release r l then set_record l.host (record r { releasing = false }) s else s
]

-- The last critical section.
unfoldable pub finish_release : Release → ApiServer → ApiServer
finish_release l s = elim (Dict.lookup l.host s.claims) [
  | none ↦ s
  | some r ↦ if matches_release r l then record s { claims = Dict.erase l.host s.claims } else s
]

abbrev pub stale : String → Response
stale message = write_zb_error 409 Layer.control_plane Code.stale_token_rejected "" message

abbrev rejected : Error → Response
rejected err = write_zb_error 502 Layer.control_plane Code.publication_rejected "" (text err)

-- What a request carries: the decoders' answers for its body, and the token that
-- `newClaimToken` would make.
pub record Request : Type 0 where
  pub method : String
  pub path : String
  pub claim : Option Claim
  pub publication : Option Publication
  pub release : Option Release
  pub token : String

module _ (R : RouteRuntime) where
  -- The server and the runtime that it drives; `configured` is `routeRuntime != nil`.
  pub record Daemon : Type 0 where
    pub configured : Bool
    pub server : ApiServer
    pub runtime : R.State

module _ ⦃t : Unicode⦄ (R : RouteRuntime) where
  -- `handleRoutes` from the lock on, for a publication with its host in canonical form.
  unfoldable pub publish_routes : Publication → Daemon R → Response × Daemon R
  publish_routes p d = elim (active_claim p d.server) [
    | none ↦ (stale "publication does not match an active claim", d)
    | some r ↦
        let (err, runtime) = R.publish p d.runtime in
        if not (is_nil err) then (rejected err, record d { runtime = runtime }) else (
          no_content,
          record d {
            server = set_record p.host (record r { published = true; publication = p }) d.server;
            runtime = runtime;
          },
        )
  ]

  unfoldable pub handle_routes : Option Publication → Daemon R → Response × Daemon R
  handle_routes body d =
      if not d.configured
      then (
        write_zb_error 503 Layer.control_plane Code.route_runtime_unavailable ""
            "route runtime not configured",
        d,
      )
      else elim body [
        | none ↦ (
          write_zb_error 400 Layer.daemon_ipc Code.protocol_decode_failed "" "decode publication",
          d,
        )
        | some p ↦ publish_routes (record p { host = canonical_host p.host }) d
      ]

  -- The call of the runtime between the critical sections of a release: the error, if it is made.
  unfoldable pub withdraw : ClaimRecord → Bool → R.State → Error × R.State
  withdraw r configured runtime =
      if r.published && configured then R.unpublish r.publication runtime else (nil, runtime)

  -- From the first lock of `handleRelease` on, for a release with its host in canonical form.
  unfoldable pub release_claim : Release → Daemon R → Response × Daemon R
  release_claim l d =
      let (found, begun) = begin_release l d.server in
      elim found [
        | none ↦ (stale "release does not match an active claim", d)
        | some r ↦
            let (err, runtime) = withdraw r d.configured d.runtime in
            if not (is_nil err)
            then (rejected err, record d { server = abort_release l begun; runtime = runtime })
            else (no_content, record d { server = finish_release l begun; runtime = runtime })
      ]

  unfoldable pub handle_release : Option Release → Daemon R → Response × Daemon R
  handle_release none d =
      (write_zb_error 400 Layer.daemon_ipc Code.protocol_decode_failed "" "decode release", d)
  handle_release (some l) d = release_claim (record l { host = canonical_host l.host }) d

  abbrev claiming : Request → Daemon R → Response × Daemon R
  claiming q d =
      let (response, server) = handle_claim q.claim q.token d.server in
      (response, record d { server = server })

  -- `ServeHTTP`
  unfoldable pub serve_http : Request → Daemon R → Response × Daemon R
  serve_http q d =
      if q.method == "GET" && q.path == "/health"
      then (no_content, d)
      else if q.method == "PUT" && q.path == "/claims"
      then claiming q d
      else if q.method == "PUT" && q.path == "/routes"
      then handle_routes q.publication d
      else if q.method == "DELETE" && q.path == "/claims"
      then handle_release q.release d
      else (write_json 404 not_found, d)

  -- The requests, served one after another.
  unfoldable pub serve : List Request → Daemon R → Daemon R
  serve [] d = d
  serve (q ∷ qs) d = serve qs (serve_http q d).1
