-- ===== src/RouteRuntime/Restoring.antt =====
-- internal/route_runtime/docker_caddy.go: a publication and its withdrawal undo each other.
use zerobased.Base.{◌≡◌, ◌∙◌, true, none, arith, string_eq}
use zerobased.Base.Dict
use zerobased.Base.Text.{Unicode}
use zerobased.Controlplane.{Publication}
use zerobased.Zberr.Errors.{is_nil}
use zerobased.RouteRuntime.Machine.{Machine}
use zerobased.RouteRuntime.Caddy.{Runtime, runtime_host, publish, unpublish}
use zerobased.RouteRuntime.Publishing.{IsValidTable, addressed, publish-caddy, unpublish-table}
use zerobased.RouteRuntime.Disk.{Disk, IsSynced, publish-IsSynced, unpublish-IsSynced}

module _ ⦃t : Unicode⦄ (M : Machine) (D : Disk M) (p : Publication) (r : Runtime M) where
  abbrev pub restored : Runtime M
  restored = (unpublish M p (publish M p r).1).1

  table_restored :
      Dict.lookup (runtime_host p.host) r.caddy.publications ≡ none
      → is_nil (publish M p r).0 ≡ true
      → is_nil (unpublish M p (publish M p r).1).0 ≡ true
      → restored.caddy ≡ r.caddy
  table_restored free published withdrawn =
      let host = runtime_host p.host in
      let d = r.caddy.publications in
      let undone : Dict.erase host (Dict.insert host (addressed p) d) ≡ d =
        Dict.erase-insert host (addressed p) d ∙ Dict.erase-free host d free in
      ground (arith, undone, publish-caddy M p r, unpublish-table M p (publish M p r).1)

  -- On a disk that works, from a valid table that the Caddyfile agrees with, a publication of a host that the
  -- table has not, and its withdrawal, both answered with nil, leave the runtime's fields, its table among
  -- them, and the text of the Caddyfile as they were.
  pub unpublish-publish :
      IsValidTable r.caddy.publications
      → IsSynced M D r
      → Dict.lookup (runtime_host p.host) r.caddy.publications ≡ none
      → is_nil (publish M p r).0 ≡ true
      → is_nil (unpublish M p (publish M p r).1).0 ≡ true
      → (restored.caddy ≡ r.caddy)
        × (D.read r.caddy.config_path restored.world ≡ D.read r.caddy.config_path r.world)
  unpublish-publish valid synced free published withdrawn =
      let (now, kept) = publish-IsSynced M D p r valid synced in
      let (last, _) = unpublish-IsSynced M D p (publish M p r).1 kept in
      let same = table_restored free published withdrawn in (same, ground (arith, last, same))
