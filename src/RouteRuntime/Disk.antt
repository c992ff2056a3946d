-- ===== src/RouteRuntime/Disk.antt =====
-- The Caddyfile on disk stays the one of the table in memory, also when a reload fails.
use zerobased.Base.{
  ℕ, zero, suc, String, ◌≡◌, refl, Option, some, List, arith, string_eq, Bool-cases, inl, inr,
}
use zerobased.Base.Dict.{Dict}
use zerobased.Base.FilePath.{dir}
use zerobased.Base.Text.{Unicode}
use zerobased.Controlplane.{Publication}
use zerobased.Zberr.Errors.{Error, nil, is_nil}
use zerobased.RouteRuntime.Machine.{Machine}
use zerobased.RouteRuntime.Validation.{validate_publication}
use zerobased.RouteRuntime.Render.{render_caddyfile}
use zerobased.RouteRuntime.Caddy.{
  DockerCaddy, Runtime, runtime_host, write_config, reload_from, reload, reload_command, install,
  publish, unpublish,
}
use zerobased.Zberr.Errors.Laws.{is_nil-eq}
use zerobased.RouteRuntime.Publishing.{
  copy_publications_lem, IsValidTable, insert-IsValidTable, erase-IsValidTable,
  render_caddyfile_total, addressed,
}

-- A disk that works: writes succeed and are read back, and commands and pauses leave files alone.
pub record Disk (M : Machine) : Type 0 where
  pub read : String → M.World → Option String
  pub mkdir_succeeds : (path : String) (w : M.World) → (M.mkdir_all path w).0 ≡ nil
  pub write_succeeds : (path s : String) (w : M.World) → (M.write_file path s w).0 ≡ nil
  pub read-write : (path s : String) (w : M.World) → read path (M.write_file path s w).1 ≡ some s
  pub read-run :
      (path : String) (args : List String) (w : M.World) → read path (M.run args w).2 ≡ read path w
  pub read-pause : (path : String) (w : M.World) → read path (M.pause w).1 ≡ read path w

module _ ⦃t : Unicode⦄ (M : Machine) where
  install-IsValidTable :
      (next : Dict Publication) (r : Runtime M)
      → IsValidTable next
      → IsValidTable r.caddy.publications
      → IsValidTable (install M next r).1.caddy.publications
  unfolding install
  install-IsValidTable next r n v = ground (arith, n, v)

  publish-IsValidTable :
      (p : Publication) (r : Runtime M)
      → IsValidTable r.caddy.publications
      → IsValidTable (publish M p r).1.caddy.publications
  unfolding publish
  publish-IsValidTable p r v = elim (Bool-cases (is_nil (validate_publication (addressed p)))) [
    | inl e ↦
        rw (e, copy_publications_lem r.caddy.publications, publish)
          (install-IsValidTable _ r
            (insert-IsValidTable (addressed p) r.caddy.publications (is_nil-eq _ e) v) v)
    | inr e ↦ rw (e, publish) v
  ]

  unpublish-IsValidTable :
      (p : Publication) (r : Runtime M)
      → IsValidTable r.caddy.publications
      → IsValidTable (unpublish M p r).1.caddy.publications
  unfolding unpublish
  unpublish-IsValidTable p r v =
      rw (copy_publications_lem r.caddy.publications, unpublish)
        (install-IsValidTable _ r (erase-IsValidTable (runtime_host p.host) r.caddy.publications v)
          v)

module _ ⦃t : Unicode⦄ (M : Machine) (D : Disk M) where
  open D use {read, mkdir_succeeds, write_succeeds, read-write, read-run, read-pause}

  abbrev content : Dict Publication → DockerCaddy → String
  content d c = (render_caddyfile d c.upstream_host).0

  write_config_lem :
      (c : DockerCaddy) (d : Dict Publication) (w : M.World)
      → IsValidTable d
      → ((write_config M c d w).0 ≡ nil)
        × (read c.config_path (write_config M c d w).1 ≡ some (content d c))
  unfolding write_config
  write_config_lem c d w v =
      let made = M.mkdir_all (dir c.config_path) w in
      ground (
        arith,
        mkdir_succeeds (dir c.config_path) w,
        render_caddyfile_total d c.upstream_host v,
        write_succeeds c.config_path (content d c) made.1,
        read-write c.config_path (content d c) made.1,
      )

  read-reload_from :
      (attempts : ℕ) (c : DockerCaddy) (last : Error) (w : M.World) (path : String)
      → read path (reload_from M attempts c last w).1 ≡ read path w
  unfolding reload_from
  read-reload_from zero c last w path = refl
  read-reload_from (suc attempts) c last w path =
      let ran = M.run (reload_command M c) w in
      ground (
        arith,
        read-run path (reload_command M c) w,
        read-pause path ran.2,
        read-reload_from attempts c ran.1 (M.pause ran.2).1 path,
      )

  read-reload :
      (c : DockerCaddy) (w : M.World) (path : String) → read path (reload M c w).1 ≡ read path w
  unfolding reload
  read-reload c w path = read-reload_from 10 c nil w path

  -- The file has the text of the table.
  abbrev pub IsSynced : Runtime M → Type 0
  IsSynced r = read r.caddy.config_path r.world ≡ some (content r.caddy.publications r.caddy)

  install-IsSynced :
      (next : Dict Publication) (r : Runtime M)
      → IsValidTable next
      → IsValidTable r.caddy.publications
      → IsSynced (install M next r).1
  unfolding install
  install-IsSynced next r n v =
      let wrote = write_config_lem r.caddy next r.world n in
      let w = (write_config M r.caddy next r.world).1 in
      let reloaded = (reload M r.caddy w).1 in
      ground (
        arith,
        wrote,
        read-reload r.caddy w r.caddy.config_path,
        write_config_lem r.caddy r.caddy.publications reloaded v,
      )

  -- On a disk that works, a publication leaves the Caddyfile with the text of the table that is then
  -- in memory, on success and after every error, and keeps the table valid.
  pub publish-IsSynced :
      (p : Publication) (r : Runtime M)
      → IsValidTable r.caddy.publications
      → IsSynced r
      → IsSynced (publish M p r).1 × IsValidTable (publish M p r).1.caddy.publications
  unfolding publish
  publish-IsSynced p r v s = (synced, publish-IsValidTable M p r v)
    where
      synced : IsSynced (publish M p r).1
      synced = elim (Bool-cases (is_nil (validate_publication (addressed p)))) [
        | inl e ↦
            rw (e, copy_publications_lem r.caddy.publications, publish)
              (install-IsSynced _ r
                (insert-IsValidTable (addressed p) r.caddy.publications (is_nil-eq _ e) v) v)
        | inr e ↦ rw (e, publish) s
      ]

  -- The same of a withdrawal.
  pub unpublish-IsSynced :
      (p : Publication) (r : Runtime M)
      → IsValidTable r.caddy.publications
      → IsSynced (unpublish M p r).1 × IsValidTable (unpublish M p r).1.caddy.publications
  unfolding unpublish
  unpublish-IsSynced p r v = (
    rw (copy_publications_lem r.caddy.publications, unpublish)
        (install-IsSynced _ r (erase-IsValidTable (runtime_host p.host) r.caddy.publications v) v),
    unpublish-IsValidTable M p r v,
  )
