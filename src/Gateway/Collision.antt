-- ===== src/Gateway/Collision.antt =====
-- Two hosts that the daemon tells apart and Caddy does not: the canonical form takes one dot off, and
-- is computed once by the daemon and once more by the runtime.
use zerobased.Base.{String, ◌<>◌, ◌≡◌, ◌≢◌, ap, ◌∙◌, true, some, arith, string_eq}
use zerobased.Base.Dict
use zerobased.Base.Text.{Unicode}
use zerobased.Controlplane.{Publication}
use zerobased.Zberr.Errors.{is_nil}
use zerobased.Daemon.Server.{canonical_host}
use zerobased.RouteRuntime.Machine.{Machine}
use zerobased.RouteRuntime.Validation.{valid_caddy_host}
use zerobased.RouteRuntime.Caddy.{Runtime, publish}
use zerobased.RouteRuntime.Hosts.{
  runtime_host-eq, canonical_host_valid, canonical_host_dot, canonical_host_dots, append_dot-ne,
}
use zerobased.RouteRuntime.Publishing.{addressed, publish-caddy}

module _ ⦃t : Unicode⦄ (M : Machine) where
  -- For every host that Caddy accepts: the daemon keeps the host and the host with two dots behind it
  -- under different keys, so that different projects may claim them; and a publication for the key of
  -- the second that the runtime accepts puts its routes in the place of the routes of the first.
  pub dotted_host_collides :
      (host : String) (p : Publication) (r : Runtime M)
      → valid_caddy_host host ≡ true
      → p.host ≡ canonical_host ((host <> ".") <> ".")
      → is_nil (publish M p r).0 ≡ true
      → (canonical_host host ≡ host)
        × (canonical_host ((host <> ".") <> ".") ≢ host)
        × (Dict.lookup host (publish M p r).1.caddy.publications ≡ some (record p { host = host }))
  dotted_host_collides host p r valid at ok =
      let dots = canonical_host_dots host valid in
      let place =
        runtime_host-eq p.host ∙ ap canonical_host (at ∙ dots) ∙ canonical_host_dot host valid in
      let same : addressed p ≡ record p { host = host } = ap (λ h. record p { host = h }) place in
      (
        canonical_host_valid host valid,
        λ e. append_dot-ne host (rw dots at e),
        ap (λ c. Dict.lookup host c.publications) (publish-caddy M p r)
            ∙ rw ok (
                ap
                  (λ (q : Publication).
                    Dict.lookup host (Dict.insert q.host q r.caddy.publications))
                  same
                ∙ ground (
                  arith,
                  Dict.lookup-insert host host (record p { host = host }) r.caddy.publications,
                )),
      )
