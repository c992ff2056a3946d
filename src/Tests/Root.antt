-- ===== src/Tests/Root.antt =====
-- The search for a project's directory, and a whole run from it.
use zerobased.Base.{
  ◌≡◌, refl, String, true, some, [], ◌∷◌, arith, ◌==◌, nat_eq, string_eq, int_eq, if◌then◌else◌,
  pos,
}
use zerobased.Base.FilePath.{join_path}
use zerobased.Base.Text.{join}
use zerobased.Zberr.Errors.{Error, nil, plain}
use zerobased.Up.Root.{climb, find_project_root}
use zerobased.Up.Root.Nearest.{nearest, find_project_root_lem}
use zerobased.Up.Run.{
  Plan, Session, claims, composes, starts, publishes, releases, terminates, decomposes,
}
use zerobased.Up.Command.{Files, Options, run, run_from, run_project, new_session_id}
use zerobased.Up.Command.Effects.{CarriedOut, Handled, IsLoaded, run-Handled}
use zerobased.Cli.{run_up}
use zerobased.Cli.Endings.{run_up_lem, up_options}
use zerobased.Tests.Up.{clock, decode_shop, up_code}

abbrev only_shop : String → Error
only_shop path = if path == "/shop/zerobased.yaml" then nil else plain "no such file"

-- The project's directory is the parent of the one where the search begins.
find_project_root_lem_example :
    find_project_root only_shop (λ path. (nil, path)) 3 "/shop/web"
    ≡ some (nearest only_shop "/shop/web" ("web" ∷ "shop" ∷ []))
unfolding join string_eq nat_eq
find_project_root_lem_example =
    find_project_root_lem only_shop (λ path. (nil, path)) "/shop/web" 3 ("web" ∷ "shop" ∷ [])
      ((refl, refl, refl, refl), ((refl, refl, refl, refl), tt)) refl (ground arith)

finds : nearest only_shop "/shop/web" ("web" ∷ "shop" ∷ []) ≡ ("/shop", nil)
unfolding nearest join_path join string_eq nat_eq
finds = refl

abbrev files : Files
files = record {
  getwd = (nil, "/shop");
  absolute = λ path. (nil, path);
  stat = only_shop;
  read_file = λ path. (nil, "version: 1");
  decode = decode_shop;
  random_hex = (nil, "s1");
  nanoseconds = "1";
}

abbrev options : Options
options = record { project_dir = ""; has_control_plane = true; cleanup_timeout = pos 0 }

abbrev ended : Error × Session clock
ended = (
  nil,
  record {
    world = 0;
    trace = claims ∷ composes ∷ starts ∷ publishes ∷ releases ∷ terminates ∷ decomposes ∷ [];
  },
)

run_code : Unit {0}
unfolding up_code run run_from run_project new_session_id find_project_root climb join_path
run_code = tt

run-Handled_example : Handled clock files (IsLoaded files 3 options) 2 ended
unfolding run_code
run-Handled_example = run-Handled clock files 3 5 options 2 ended refl

run_up_lem_example :
    (cwd : String) × (files.getwd ≡ (nil, cwd))
    × ((p : Plan) × IsLoaded files 3 (up_options cwd) p × CarriedOut clock p 2 ended.1)
unfolding run_code run_up
run_up_lem_example =
    run_up_lem clock files 3 5 (nil, "/home/u/.zerobased") 2
      (record { code = 0; stdout = ""; stderr = "" }, ended.1) refl refl
