-- ===== src/RouteRuntime/Render.antt =====
-- internal/route_runtime/docker_caddy.go: the Caddyfile.
use Prim.Native.String.{len}
use zerobased.Base.{
  String, ◌<>◌, Bool, Option, none, some, List, [], ◌∷◌, ◌==◌, string_eq, if◌then◌else◌, ltb,
}
use zerobased.Base.Dict
use zerobased.Base.Dict.{Dict}
use zerobased.Base.Text.{Unicode, has_suffix}
use zerobased.Base.Decimal.{show_int}
use zerobased.Base.Sorting.{sort_stable, sort_strings}
use zerobased.Controlplane.{Route, Publication}
use zerobased.Zberr.Errors.{Error, nil, is_nil}
use zerobased.RouteRuntime.Validation.{validate_publication}

-- `len(a.Path) > len(b.Path)`
abbrev pub longer_path : Route → Route → Bool
longer_path a b = ltb (len b.path) (len a.path)

unfoldable pub sort_routes : List Route → List Route
unfolding sort_stable
sort_routes = sort_stable longer_path

unfoldable pub caddy_path_matcher : String → String
unfolding has_suffix
caddy_path_matcher path =
    if has_suffix path "*" then path else if has_suffix path "/" then path <> "*" else path <> "*"

unfoldable pub render_route : String → Route → String
unfolding caddy_path_matcher show_int
render_route upstream_host r =
    (if r.path == "/" then "\thandle {\n" else "\thandle " <> (caddy_path_matcher r.path <> " {\n"))
    <> ("\t\treverse_proxy " <> (upstream_host <> (":" <> (show_int r.port <> "\n\t}\n"))))

unfoldable pub render_routes : String → List Route → String
unfolding render_route
render_routes upstream_host [] = ""
render_routes upstream_host (r ∷ rs) =
    render_route upstream_host r <> render_routes upstream_host rs

unfoldable pub render_site : String → String → Publication → String
unfolding render_routes sort_routes
render_site upstream_host host p =
    "\nhttp://"
    <> (host <> (" {\n" <> (render_routes upstream_host (sort_routes p.routes) <> "}\n")))

abbrev pub preamble : String
preamble = "{\n\tauto_https off\n}\n\n:80 {\n\trespond \"zerobased: route not found\" 404\n}\n"

-- The zero value of a missing key.
abbrev or_empty : Option Publication → Publication
or_empty (some p) = p
or_empty none = record {
  name = "";
  host = "";
  project_dir = "";
  session_id = "";
  routes = [];
  claim_token = "";
  generation = 0;
}

module _ ⦃t : Unicode⦄ where
  -- The loop over the sorted hosts: the text written so far, and the first error.
  unfoldable pub render_sites : List String → Dict Publication → String → String → String × Error
  render_sites [] publications upstream_host text = (text, nil)
  render_sites (host ∷ hosts) publications upstream_host text =
      let p = or_empty (Dict.lookup host publications) in
      let err = validate_publication p in
      let rest =
        render_sites hosts publications upstream_host (text <> render_site upstream_host host p) in
      if is_nil err then rest else ("", err)

  unfoldable pub render_caddyfile : Dict Publication → String → String × Error
  render_caddyfile publications upstream_host =
      render_sites (sort_strings (Dict.keys publications)) publications upstream_host preamble
