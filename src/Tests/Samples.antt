-- ===== src/Tests/Samples.antt =====
-- The data of the tests: a table of characters, a machine with a file system and a log of its
-- commands, and the messages of two projects.
use Prim.Native.Char.{Char, code}
use zerobased.Base.{
  ℕ, zero, suc, ◌-◌, ◌≡◌, refl, String, true, not, ◌&&◌, none, some, List, [], ◌∷◌, ◌++◌, arith,
  ◌==◌, nat_eq, string_eq, if◌then◌else◌, leb, pos,
}
use zerobased.Base.Dict
use zerobased.Base.Dict.{Dict}
use zerobased.Base.Text.{Unicode}
use zerobased.Controlplane.{Route, Claim, Publication, Release}
use zerobased.Zberr.Errors.{Error, nil, plain}
use zerobased.Daemon.Server.{init}
use zerobased.Daemon.Handlers.{Request}
use zerobased.RouteRuntime.Machine.{Machine}
use zerobased.RouteRuntime.Caddy.{DockerCaddy, Runtime}
use zerobased.RouteRuntime.Disk.{Disk}
use zerobased.RouteRuntime.Bootstrap.Commands.{Journal}
use zerobased.Gateway.{Gateway}

abbrev pub lower_a : Char → Char
lower_a c = if code c == b'A' then "a" else c

pub lower_a_fixes :
    (c : Char)
    → leb (code c) 127 && not (leb b'A' (code c) && leb (code c) b'Z') ≡ true
    → lower_a c ≡ c
lower_a_fixes c h = ground arith

-- Only `A` has a lower case in this table.
instance abbrev pub small_table : Unicode
small_table = record { lower = lower_a; quote = λ s. s; lower_fixes = lower_a_fixes }

-- The next `failures` commands fail.
pub record Box : Type 0 where
  pub files : Dict String
  pub commands : List (List String)
  pub failures : ℕ

abbrev pub ran : List String → Box → Box
ran args w = record w { commands = w.commands ++ args ∷ []; failures = w.failures - 1 }

abbrev pub outcome : ℕ → Error
outcome zero = nil
outcome (suc n) = plain "exit status 1"

abbrev pub box : Machine
box = record {
  World = Box;
  mkdir_all = λ path w. (nil, w);
  write_file = λ path s w. (nil, record w { files = Dict.insert path s w.files });
  run = λ args w. ("", outcome w.failures, ran args w);
  pause = λ w. (nil, w);
  parse_labels = λ s. (plain "no labels", none);
}

pub box_read-write :
    (path s : String) (files : Dict String) → Dict.lookup path (Dict.insert path s files) ≡ some s
box_read-write path s files = ground (arith, Dict.lookup-insert path path s files)

abbrev pub box_disk : Disk box
box_disk = record {
  read = λ path w. Dict.lookup path w.files;
  mkdir_succeeds = λ path w. refl;
  write_succeeds = λ path s w. refl;
  read-write = λ path s w. box_read-write path s w.files;
  read-run = λ path args w. refl;
  read-pause = λ path w. refl;
}

abbrev pub empty_box : Box
empty_box = record { files = []; commands = []; failures = 0 }

abbrev pub caddy : DockerCaddy
caddy = record {
  home = "/h";
  config_path = "/h/caddy/Caddyfile";
  container_name = "c";
  image = "i";
  upstream_host = "up";
  publications = [];
}

abbrev pub fresh : Runtime box
fresh = record { caddy = caddy; world = empty_box }

abbrev pub idle : Gateway box
idle = record { configured = true; server = init; runtime = fresh }

abbrev pub web_routes : List Route
web_routes =
    record { path = "/"; process = "web"; port = pos 3000 }
    ∷ record { path = "/api/"; process = "api"; port = pos 4000 }
    ∷ []

abbrev pub shop_claim : Claim
shop_claim = record {
  name = "shop";
  host = " Ab.test";
  project_dir = "/shop";
  session_id = "s1";
  routes = web_routes;
}

abbrev pub shop : Publication
shop = record {
  name = "shop";
  host = "ab.test";
  project_dir = "/shop";
  session_id = "s1";
  routes = web_routes;
  claim_token = "t1";
  generation = 1;
}

abbrev pub shop_release : Release
shop_release = record {
  name = "shop";
  host = "ab.test";
  project_dir = "/shop";
  session_id = "s1";
  claim_token = "t1";
  generation = 1;
}

abbrev pub no_request : Request
no_request = record {
  method = "";
  path = "";
  claim = none;
  publication = none;
  release = none;
  token = "";
}

abbrev pub claim_request : Request
claim_request = record no_request {
  method = "PUT";
  path = "/claims";
  claim = some shop_claim;
  token = "t1";
}

abbrev pub routes_request : Request
routes_request = record no_request { method = "PUT"; path = "/routes"; publication = some shop }

abbrev pub release_request : Request
release_request = record no_request {
  method = "DELETE";
  path = "/claims";
  release = some shop_release;
}

abbrev pub box_journal : Journal box
box_journal = record {
  commands = λ w. w.commands;
  mkdir_keeps = λ path w. refl;
  write_keeps = λ path s w. refl;
  pause_keeps = λ w. refl;
  run_adds = λ args w. refl;
}
