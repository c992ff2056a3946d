-- ===== src/Tests/Daemon.antt =====
-- The daemon, alone and over Caddy, at the requests of a project.
use zerobased.Base.{
  ◌≡◌, ◌≢◌, refl, subst, true, none, some, List, [], ◌∷◌, All, string_eq, nat_eq, int_eq,
}
use mathlib.Core.Option.{some-injective}
use zerobased.Base.Dict
use zerobased.Base.Text.{trim_space, to_lower, trim_suffix}
use zerobased.Controlplane.{Claim, Publication}
use zerobased.Zberr.Errors.{nil, new}
use zerobased.Daemon.Server.{
  ApiServer, ClaimRecord, init, canonical_host, new_record, handle_claim, claim_host,
  matches_publication, matches_release, routes_equal,
}
use zerobased.Daemon.Handlers.{
  Request, serve_http, serve, handle_routes, handle_release, publish_routes, release_claim,
  begin_release, finish_release, abort_release, withdraw, active_claim,
}
use zerobased.Daemon.Claims.{Granted, holder, handle_claim-Granted, handle_claim-keeps}
use zerobased.Daemon.Invariant.{IsValid, serve-IsValid}
use zerobased.Daemon.Interleaving.{
  System, Pending, Reach, here, next, takes_claim, begins, answers, claims_of, with_server, begun,
  answered, ended,
}
use zerobased.Daemon.Interleaving.Safety.{IsSafe-idle, release_isolated}
use zerobased.RouteRuntime.Caddy.{
  publish, unpublish, install, write_config, reload, reload_from, copy_publications, runtime_host,
}
use zerobased.RouteRuntime.Render.{render_caddyfile, render_sites, render_site}
use zerobased.RouteRuntime.Validation.{validate_publication}
use zerobased.Base.Sorting.{sort_strings}
use zerobased.Gateway.{caddy_runtime, Agrees, IsStableRequest, serve-Agrees, dotted_host_collides}
use zerobased.Tests.Samples.{
  small_table, box, fresh, idle, shop_claim, shop, shop_release, claim_request, routes_request,
  release_request,
}

abbrev script : List Request
script = claim_request ∷ routes_request ∷ release_request ∷ []

-- What the runs compute with.
unfoldable pub daemon_code : Unit {0}
unfolding serve serve_http handle_claim claim_host canonical_host trim_space to_lower trim_suffix
    handle_routes publish_routes active_claim matches_publication routes_equal handle_release
    release_claim begin_release matches_release finish_release abort_release withdraw Dict.lookup
    Dict.insert Dict.erase string_eq nat_eq int_eq
daemon_code = tt

unfoldable pub caddy_code : Unit {0}
unfolding publish unpublish install write_config reload reload_from copy_publications runtime_host
    render_caddyfile render_sites render_site validate_publication sort_strings Dict.keys new
caddy_code = tt

-- A claim, a publication and a release: the claim is gone, and the next generation is the second.
served : (serve (caddy_runtime box) script idle).server ≡ record { claims = []; generation = 1 }
unfolding daemon_code caddy_code
served = refl

IsValid-init : IsValid init
IsValid-init = record { nodup = tt; consistent = tt }

serve-IsValid_example : IsValid (serve (caddy_runtime box) script idle).server
serve-IsValid_example = serve-IsValid (caddy_runtime box) script idle IsValid-init

idle-Agrees : Agrees box idle
unfolding Dict.lookup
idle-Agrees = record {
  valid = IsValid-init;
  routes = λ host. refl;
  stable = λ host r h. cc;
  has_runtime = refl;
}

shop_claim_stable : canonical_host (canonical_host shop_claim.host) ≡ canonical_host shop_claim.host
unfolding daemon_code
shop_claim_stable = refl

stable_script : All (IsStableRequest box) script
stable_script = (
  λ c e.
      subst (λ (c : Claim). canonical_host (canonical_host c.host) ≡ canonical_host c.host)
        (some-injective shop_claim c e) shop_claim_stable,
  (λ c e. cc, (λ c e. cc, tt)),
)

serve-Agrees_example : Agrees box (serve (caddy_runtime box) script idle)
serve-Agrees_example = serve-Agrees box script idle stable_script idle-Agrees

abbrev claimed : ClaimRecord
claimed = new_record (record shop_claim { host = "ab.test" }) "t1" 1

abbrev claimed_server : ApiServer
claimed_server = record { claims = ("ab.test", claimed) ∷ []; generation = 1 }

handle_claim-Granted_example :
    Granted shop_claim (record { token = "t1"; generation = 1 }) (holder shop_claim "t1" init)
unfolding daemon_code
handle_claim-Granted_example =
    handle_claim-Granted shop_claim "t1" init (record { token = "t1"; generation = 1 }) refl

-- Another project asks for the host that is held.
abbrev rival_claim : Claim
rival_claim = record shop_claim { project_dir = "/rival"; session_id = "s2" }

handle_claim-keeps_example :
    Dict.lookup "ab.test" (handle_claim (some rival_claim) "t2" claimed_server).1.claims
    ≡ some claimed
unfolding daemon_code
handle_claim-keeps_example =
    handle_claim-keeps (some rival_claim) "t2" claimed_server "ab.test" claimed refl

-- A release that has begun, and whose answer from the runtime is there.
abbrev start : System (caddy_runtime box)
start = record { daemon = idle; pending = [] }

abbrev claimed_system : System (caddy_runtime box)
claimed_system = with_server (caddy_runtime box) start (handle_claim (some shop_claim) "t1" init).1

abbrev marked : ClaimRecord
marked = record claimed { releasing = true }

abbrev pending : Pending
pending = record { release = shop_release; held = marked; answer = none }

abbrev answered_system : System (caddy_runtime box)
answered_system =
    answered (caddy_runtime box) (begun (caddy_runtime box) claimed_system shop_release marked)
      "ab.test" pending

reached : Reach (caddy_runtime box) start answered_system
unfolding daemon_code
reached =
    next (next (next here (takes_claim (some shop_claim) "t1")) (begins shop_release marked refl))
      (answers "ab.test" pending refl refl)

release_isolated_example :
    (Dict.lookup "ab.test" (claims_of (caddy_runtime box) answered_system) ≡ some marked)
    × (Dict.lookup "ab.test" (
          claims_of (caddy_runtime box) (
            ended
              (caddy_runtime box)
              answered_system
              "ab.test"
              (record pending { answer = some nil })
              nil))
        ≡ none)
unfolding daemon_code
release_isolated_example =
    release_isolated (caddy_runtime box) "ab.test" (record pending { answer = some nil }) nil
      "ab.test" (IsSafe-idle (caddy_runtime box) idle refl) reached refl

-- A publication under the key that the daemon has for `ab.test..`.
abbrev dotted : Publication
dotted = record shop { host = "ab.test." }

dotted_host_collides_example :
    (canonical_host "ab.test" ≡ "ab.test")
    × (canonical_host "ab.test.." ≢ "ab.test")
    × (Dict.lookup "ab.test" (publish box dotted fresh).1.caddy.publications ≡ some shop)
unfolding daemon_code caddy_code
dotted_host_collides_example = dotted_host_collides box "ab.test" dotted fresh refl refl refl
