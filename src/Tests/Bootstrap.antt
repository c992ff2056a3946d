-- ===== src/Tests/Bootstrap.antt =====
-- A bootstrap on the small machine, whose inspection finds no labels.
use zerobased.Base.{◌≡◌, String, List, ◌++◌}
use zerobased.RouteRuntime.Bootstrap.{bootstrap}
use zerobased.RouteRuntime.Bootstrap.Ownership.{Respects, bootstrap-Respects}
use zerobased.Tests.Samples.{small_table, box, empty_box, caddy, box_journal}

bootstrap-Respects_example :
    (ran : List (List String)) × ((bootstrap box caddy empty_box).1.commands
      ≡ empty_box.commands ++ ran)
    × Respects box box_journal caddy empty_box ((bootstrap box caddy empty_box).0) ran
bootstrap-Respects_example = bootstrap-Respects box box_journal caddy empty_box
