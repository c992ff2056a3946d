-- ===== src/RouteRuntime/Order.antt =====
-- The order of the routes of a site: Caddy takes the first handler that fits, so longer paths come first.
use Prim.Native.String.{len}
use mathlib.Core.List.{Perm}
use zerobased.Base.{◌≡◌, ◌≤◌, ◌<>◌, refl, String, true, false, List, [], ◌∷◌, All, arith}
use zerobased.Base.Sorting.Laws.{sort_stable-perm, sort_stable-IsSorted, IsSorted}
use zerobased.Controlplane.{Route, Publication}
use zerobased.RouteRuntime.Render.{
  longer_path, sort_routes, render_route, render_routes, render_site,
}

longer_path_asym : (a b : Route) → longer_path a b ≡ true → longer_path b a ≡ false
longer_path_asym a b h = ground arith

not_longer_trans :
    (a b c : Route) → longer_path a b ≡ false → longer_path b c ≡ false → longer_path a c ≡ false
not_longer_trans a b c h k = ground arith

-- No route stands behind one with a shorter path.
abbrev pub LongestFirst : List Route → Type 0
LongestFirst [] = Unit
LongestFirst (a ∷ rest) = All (λ b. len b.path ≤ len a.path) rest × LongestFirst rest

-- The blocks of routes, one after the other.
abbrev pub blocks : String → List Route → String
blocks upstream_host [] = ""
blocks upstream_host (r ∷ rs) = render_route upstream_host r <> blocks upstream_host rs

All-shorter :
    (a : Route) (rs : List Route)
    → All (λ b. longer_path b a ≡ false) rs
    → All (λ b. len b.path ≤ len a.path) rs
All-shorter a [] h = tt
All-shorter a (b ∷ rs) h = (ground arith, All-shorter a rs h.1)

IsSorted-LongestFirst : (rs : List Route) → IsSorted longer_path rs → LongestFirst rs
IsSorted-LongestFirst [] s = tt
IsSorted-LongestFirst (a ∷ rs) s = (All-shorter a rs s.0, IsSorted-LongestFirst rs s.1)

render_routes-blocks :
    (upstream_host : String) (rs : List Route)
    → render_routes upstream_host rs ≡ blocks upstream_host rs
unfolding render_routes
render_routes-blocks upstream_host [] = refl
render_routes-blocks upstream_host (r ∷ rs) = rw (render_routes-blocks upstream_host rs) refl

-- The block of a site names its host and holds one block for each of the published routes, and no block
-- stands behind the block of a route with a shorter path.
pub render_site-LongestFirst :
    (upstream_host host : String) (p : Publication)
    → (rs : List Route) × Perm rs p.routes
      × LongestFirst rs
      × (render_site upstream_host host p
          ≡ "\nhttp://" <> (host <> (" {\n" <> (blocks upstream_host rs <> "}\n"))))
unfolding render_site sort_routes
render_site-LongestFirst upstream_host host p = (
  sort_routes p.routes,
  sort_stable-perm longer_path p.routes,
  IsSorted-LongestFirst (sort_routes p.routes)
      (sort_stable-IsSorted longer_path longer_path_asym not_longer_trans p.routes),
  rw (render_routes-blocks upstream_host (sort_routes p.routes)) refl,
)
