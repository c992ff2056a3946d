-- ===== src/Tests/Caddy.antt =====
-- The Caddy runtime on the machine of the tests.
use mathlib.Core.List.{Perm}
use zerobased.Base.{
  ℕ, ◌≡◌, refl, ◌↔◌, ◌<◌, ◌⊎◌, ◌<>◌, List, true, false, [], ◌∷◌, none, some, string_eq, nat_eq,
}
use zerobased.Base.Dict
use zerobased.Base.FilePath.{clean, dir, base, join_path}
use zerobased.Controlplane.{Route}
use zerobased.Zberr.Errors.{nil, is_nil, new}
use zerobased.Daemon.Server.{canonical_host}
use zerobased.RouteRuntime.Validation.{validate_publication, valid_caddy_host}
use zerobased.RouteRuntime.Render.{render_caddyfile, render_sites, render_site}
use zerobased.RouteRuntime.Caddy.{
  Runtime, publish, unpublish, reload, install, write_config, reload_from, copy_publications,
  runtime_host,
}
use zerobased.RouteRuntime.Publishing.{IsValidTable, addressed, publish-table}
use zerobased.RouteRuntime.Disk.{IsSynced, publish-IsSynced, unpublish-IsSynced}
use zerobased.RouteRuntime.Restoring.{unpublish-publish}
use zerobased.RouteRuntime.Reload.{SucceedsAfter, reload_iff}
use zerobased.RouteRuntime.Order.{LongestFirst, blocks, render_site-LongestFirst}
use zerobased.Base.Sorting.{sort_strings}
use zerobased.Tests.Samples.{small_table, box, box_disk, empty_box, caddy, fresh, shop}

paths :
    (clean "/a/./b//../c/" ≡ "/a/c")
    × (clean "../x/../.." ≡ "../..")
    × (dir "/h/caddy/Caddyfile" ≡ "/h/caddy")
    × (base "/a/b/" ≡ "b")
    × (join_path ("" ∷ "caddy" ∷ "Caddyfile" ∷ []) ≡ "caddy/Caddyfile")
unfolding clean dir base join_path string_eq nat_eq
paths = (refl, refl, refl, refl, refl)

-- What the runs compute with.
caddy_code : Unit {0}
unfolding publish unpublish install write_config reload reload_from copy_publications runtime_host
    render_caddyfile render_sites render_site validate_publication sort_strings Dict.keys new
    Dict.lookup Dict.insert Dict.erase string_eq nat_eq dir valid_caddy_host canonical_host
caddy_code = tt

caddyfile :
    Dict.lookup "/h/caddy/Caddyfile" (publish box shop fresh).1.world.files
    ≡ some
        "{\n\tauto_https off\n}\n\n:80 {\n\trespond \"zerobased: route not found\" 404\n}\n\nhttp://ab.test {\n\thandle /api/* {\n\t\treverse_proxy up:4000\n\t}\n\thandle {\n\t\treverse_proxy up:3000\n\t}\n}\n"
unfolding caddy_code
caddyfile = refl

-- A machine whose first twelve commands fail: the reload gives up.
abbrev broken : Runtime box
broken = record fresh { world = record empty_box { failures = 12 } }

publish-table_example :
    ((is_nil (publish box shop broken).0 ≡ true)
      × (validate_publication (addressed shop) ≡ nil)
      × ((publish box shop broken).1.caddy ≡ record caddy {
        publications = Dict.insert (addressed shop).host (addressed shop) caddy.publications;
      }))
    ⊎ ((is_nil (publish box shop broken).0 ≡ false) × ((publish box shop broken).1.caddy ≡ caddy))
publish-table_example = publish-table box shop broken

-- The runtime with the file of its empty table.
abbrev ready : Runtime box
ready = record fresh {
  world = record empty_box { files = ("/h/caddy/Caddyfile", (render_caddyfile [] "up").0) ∷ [] };
}

empty_table : IsValidTable caddy.publications
empty_table = record { nodup = tt; checked = tt }

ready-IsSynced : IsSynced box box_disk ready
unfolding caddy_code
ready-IsSynced = refl

publish-IsSynced_example :
    IsSynced box box_disk (publish box shop ready).1
    × IsValidTable (publish box shop ready).1.caddy.publications
publish-IsSynced_example = publish-IsSynced box box_disk shop ready empty_table ready-IsSynced

unpublish-IsSynced_example :
    IsSynced box box_disk (unpublish box shop ready).1
    × IsValidTable (unpublish box shop ready).1.caddy.publications
unpublish-IsSynced_example = unpublish-IsSynced box box_disk shop ready empty_table

was_free : Dict.lookup (runtime_host shop.host) ready.caddy.publications ≡ none
unfolding caddy_code
was_free = refl

was_published : is_nil (publish box shop ready).0 ≡ true
unfolding caddy_code
was_published = refl

was_withdrawn : is_nil (unpublish box shop (publish box shop ready).1).0 ≡ true
unfolding caddy_code
was_withdrawn = refl

unpublish-publish_example :
    ((unpublish box shop (publish box shop ready).1).1.caddy ≡ caddy)
    × (Dict.lookup "/h/caddy/Caddyfile"
          (unpublish box shop (publish box shop ready).1).1.world.files
        ≡ some (render_caddyfile [] "up").0)
unfolding Dict.lookup string_eq
unpublish-publish_example =
    unpublish-publish box box_disk shop ready empty_table ready-IsSynced was_free was_published
      was_withdrawn

reload_iff_example :
    (is_nil (reload box caddy broken.world).0 ≡ true)
    ↔ ((k : ℕ) × (k < 10) × SucceedsAfter box caddy k broken.world)
reload_iff_example = reload_iff box caddy broken.world

render_site-LongestFirst_example :
    (rs : List Route) × Perm rs shop.routes
    × LongestFirst rs
    × (render_site "up" "ab.test" shop
        ≡ "\nhttp://" <> ("ab.test" <> (" {\n" <> (blocks "up" rs <> "}\n"))))
render_site-LongestFirst_example = render_site-LongestFirst "up" "ab.test" shop
