-- ===== src/RouteRuntime/Caddy.antt =====
-- internal/route_runtime/docker_caddy.go: the operations of `DockerCaddy`, each under its mutex.
use zerobased.Base.{
  ℕ, zero, suc, String, not, none, some, List, [], ◌∷◌, ◌++◌, ◌==◌, string_eq, if◌then◌else◌,
}
use zerobased.Base.Dict
use zerobased.Base.Dict.{Dict}
use zerobased.Base.FilePath.{clean, join_path, dir}
use zerobased.Base.Text.{Unicode, trim_space, to_lower, trim_suffix}
use zerobased.Controlplane.{Publication}
use zerobased.Zberr.Layer
use zerobased.Zberr.Code
use zerobased.Zberr.Errors.{Error, nil, is_nil, caused}
use zerobased.RouteRuntime.Machine.{Machine}
use zerobased.RouteRuntime.Validation.{validate_publication}
use zerobased.RouteRuntime.Render.{render_caddyfile}

pub record DockerCaddyOptions : Type 0 where
  pub home : String
  pub container_name : String
  pub image : String
  pub upstream_host : String

pub record DockerCaddy : Type 0 where
  pub home : String
  pub config_path : String
  pub container_name : String
  pub image : String
  pub upstream_host : String
  pub publications : Dict Publication

abbrev pub default_caddy_container_name : String
default_caddy_container_name = "zerobased-route-runtime-caddy"

abbrev pub default_caddy_image : String
default_caddy_image = "caddy:2-alpine"

abbrev or_default : String → String → String
or_default s otherwise = if s == "" then otherwise else s

-- The runner is the machine's.
unfoldable pub new_docker_caddy : DockerCaddyOptions → DockerCaddy
unfolding clean join_path
new_docker_caddy options =
    let home = if options.home == "" then "" else clean options.home in
    record {
      home = home;
      config_path = join_path (home ∷ "caddy" ∷ "Caddyfile" ∷ []);
      container_name = or_default options.container_name default_caddy_container_name;
      image = or_default options.image default_caddy_image;
      upstream_host = or_default options.upstream_host "host.docker.internal";
      publications = [];
    }

abbrev pub bootstrap_failed : Error → Error
bootstrap_failed cause = caused Layer.route_runtime Code.bootstrap_failed cause

abbrev pub reload_failed : Error → Error
reload_failed cause = caused Layer.route_runtime Code.reload_failed cause

-- `copyPublications` copies the route lists too; values share nothing, so that the copy is the same.
unfoldable pub copy_publications : Dict Publication → Dict Publication
copy_publications [] = []
copy_publications ((host, p) ∷ rest) =
    (host, record p { routes = [] ++ p.routes }) ∷ copy_publications rest

unfoldable pub runtime_host : ⦃t : Unicode⦄ → String → String
unfolding trim_space to_lower trim_suffix
runtime_host host = trim_suffix (to_lower (trim_space host)) "."

module _ ⦃t : Unicode⦄ (M : Machine) where
  unfoldable pub write_config : DockerCaddy → Dict Publication → M.World → Error × M.World
  write_config c publications w =
      let (made, w₁) = M.mkdir_all (dir c.config_path) w in
      if not (is_nil made)
      then (reload_failed made, w₁)
      else let (content, err) = render_caddyfile publications c.upstream_host in
        if not (is_nil err)
        then (err, w₁)
        else let (wrote, w₂) = M.write_file c.config_path content w₁ in
          if not (is_nil wrote) then (reload_failed wrote, w₂) else (nil, w₂)

module _ (M : Machine) where
  -- The runtime's fields and the world that it acts on.
  pub record Runtime : Type 0 where
    pub caddy : DockerCaddy
    pub world : M.World

  abbrev pub reload_command : DockerCaddy → List String
  reload_command c =
      "exec" ∷ c.container_name ∷ "caddy" ∷ "reload" ∷ "--config" ∷ "/etc/caddy/Caddyfile"
      ∷ "--adapter" ∷ "caddyfile" ∷ []

  -- The loop of `reloadLocked`, with the attempts that are left.
  unfoldable pub reload_from : ℕ → DockerCaddy → Error → M.World → Error × M.World
  reload_from zero c last w = (reload_failed last, w)
  reload_from (suc attempts) c last w =
      let (_, err, w₁) = M.run (reload_command c) w in
      let (done, w₂) = M.pause w₁ in
      let rest = reload_from attempts c err w₂ in
      if is_nil err then (nil, w₁) else if not (is_nil done) then (reload_failed done, w₂) else rest

  unfoldable pub reload : DockerCaddy → M.World → Error × M.World
  reload c w = reload_from 10 c nil w

  unfoldable pub inspect_labels : DockerCaddy → M.World → Dict String × Error × M.World
  inspect_labels c w =
      let (output, err, w₁) =
        M.run ("inspect" ∷ "-f" ∷ "{{ json .Config.Labels }}" ∷ c.container_name ∷ []) w in
      if not (is_nil err)
      then ([], err, w₁)
      else let (bad, labels) = M.parse_labels (trim_space output) in
        if not (is_nil bad)
        then ([], bad, w₁)
        else elim labels [ none ↦ ([], nil, w₁) | some m ↦ (m, nil, w₁) ]

  unfoldable pub close : DockerCaddy → M.World → Error × M.World
  close c w =
      let (_, err, w₁) = M.run ("rm" ∷ "-f" ∷ c.container_name ∷ []) w in
      if not (is_nil err) then (bootstrap_failed err, w₁) else (nil, w₁)

module _ ⦃t : Unicode⦄ (M : Machine) where
  -- The end of `Publish` and of `Unpublish`: put the next table into force, or go back.
  unfoldable pub install : Dict Publication → Runtime M → Error × Runtime M
  install next r =
      let (err, w₁) = write_config M r.caddy next r.world in
      if not (is_nil err)
      then (err, record r { world = w₁ })
      else let (failed, w₂) = reload M r.caddy w₁ in
        if not (is_nil failed)
        then (failed, record r { world = (write_config M r.caddy r.caddy.publications w₂).1 })
        else (nil, record { caddy = record r.caddy { publications = next }; world = w₂ })

  unfoldable pub publish : Publication → Runtime M → Error × Runtime M
  publish publication r =
      let p = record publication { host = runtime_host publication.host } in
      let err = validate_publication p in
      if not (is_nil err)
      then (err, r)
      else install (Dict.insert p.host p (copy_publications r.caddy.publications)) r

  unfoldable pub unpublish : Publication → Runtime M → Error × Runtime M
  unpublish publication r =
      install (Dict.erase (runtime_host publication.host) (copy_publications r.caddy.publications))
        r
