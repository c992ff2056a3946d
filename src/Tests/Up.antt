-- ===== src/Tests/Up.antt =====
-- A run of one process whose readiness file is there after two ticks.
use zerobased.Base.{
  ℕ, ◌-◌, ◌≡◌, ◌⊎◌, refl, String, true, false, none, some, [], ◌∷◌, arith, ◌==◌, nat_eq, string_eq,
  int_eq, if◌then◌else◌, pos,
}
use zerobased.Base.Dict
use zerobased.Base.Dict.{Dict}
use zerobased.Base.FilePath.{is_abs}
use zerobased.Base.Sorting.{sort_strings}
use zerobased.Base.Text.{has_prefix, trim_space, split}
use zerobased.Zberr.Errors.{Error, nil, plain, is_nil}
use zerobased.Up.Config.{
  ConfigFile, enabled, check_config, check_compose, check_processes, check_routes,
  first_config_key_is_version, first_key_is_version, ProcessConfig, load_config, is_config_invalid,
}
use zerobased.Up.Config.Checked.{IsComplete}
use zerobased.Up.Config.Rejected.{load_config-IsComplete}
use zerobased.Up.Environment.{Environment, tick, deadline}
use zerobased.Up.Processes.{
  all_ready, first_exit, start_processes, start_named, terminate_processes, terminate_all,
  kill_remaining, wait_for_readiness, wait_foreground,
}
use zerobased.Up.Processes.Waiting.{wait_for_readiness-ends}
use zerobased.Up.Run.{
  Plan, Session, claims, composes, starts, publishes, releases, terminates, decomposes, run_plan,
  with_compose, with_processes, ready_and_publish, publish_and_wait, release_claim,
}
use zerobased.Up.Run.Returning.{Timed, run_plan-ends}
use zerobased.Up.Run.Cleanup.{Cleaned, run_plan-Cleaned}

-- The world is the number of ticks until the file is there.
abbrev pub clock : Environment
clock = record {
  World = ℕ;
  claim = λ c w. (record { token = "t1"; generation = 1 }, nil, w);
  publish = λ p w. (nil, w);
  release = λ r w. (nil, w);
  compose_start = λ r w. (nil, w);
  compose_stop = λ w. (nil, w);
  start_process = λ name p w. (nil, w);
  kill = λ name signal w. w;
  await_exit = λ name w. (true, w);
  poll_exit = λ name w. (none, w);
  stat = λ path w. (if w == 0 then nil else plain "no such file", w);
  is_canceled = λ w. false;
  readiness_select = λ w. (if w == 0 then deadline else tick, w - 1);
  foreground_select = λ w. (true, w);
}

abbrev web : ProcessConfig
web = record { command = "web" ∷ []; readiness = record { kind = "file"; path = "/shop/ready" } }

abbrev pub shop_config : ConfigFile
shop_config = record {
  version = pos 1;
  name = "shop";
  host = "shop.localhost";
  profile = "dev";
  compose = record {
    files = "compose.yaml" ∷ [];
    profiles = [];
    services = [];
    ownership = "owned";
  };
  processes = ("web", web) ∷ [];
  routes = record { path = "/"; process = "web"; port = pos 3000 } ∷ [];
}

abbrev pub shop_plan : Plan
shop_plan = record {
  config = shop_config;
  project_dir = "/shop";
  session_id = "s1";
  cleanup_timeout = pos 0;
}

unfoldable pub up_code : Unit {0}
unfolding run_plan with_compose with_processes ready_and_publish publish_and_wait release_claim
    wait_for_readiness wait_foreground all_ready first_exit start_processes start_named
    terminate_processes terminate_all kill_remaining nat_eq string_eq int_eq enabled sort_strings
    Dict.keys Dict.lookup is_abs check_config check_compose check_processes check_routes load_config
    first_config_key_is_version first_key_is_version has_prefix trim_space split
up_code = tt

abbrev ended : Error × Session clock
ended = (
  nil,
  record {
    world = 0;
    trace = claims ∷ composes ∷ starts ∷ publishes ∷ releases ∷ terminates ∷ decomposes ∷ [];
  },
)

run_plan-Cleaned_example : Cleaned true true (ended.1.trace)
unfolding up_code
run_plan-Cleaned_example = run_plan-Cleaned clock 5 shop_plan 2 ended refl

wait_for_readiness-ends_example :
    (r : Error × ℕ) × (wait_for_readiness clock 5 (("web", web) ∷ []) ("web" ∷ []) 2 ≡ some r)
wait_for_readiness-ends_example =
    wait_for_readiness-ends clock (λ w. w) (λ path w. ground arith) (λ name w. ground arith)
      (λ w ticks. ground arith) 5 (("web", web) ∷ []) ("web" ∷ []) 2 (ground arith)

-- A decoder that answers one configuration.
abbrev pub decode_shop : String → Error × ConfigFile
decode_shop content = (nil, shop_config)

load_config-IsComplete_example :
    ((is_nil ((load_config decode_shop (nil, "version: 1") "/shop").0) ≡ true)
      × IsComplete ((load_config decode_shop (nil, "version: 1") "/shop").1))
    ⊎ (is_config_invalid ((load_config decode_shop (nil, "version: 1") "/shop").0) ≡ true)
load_config-IsComplete_example = load_config-IsComplete decode_shop (nil, "version: 1") "/shop"

-- The sample is accepted as it stands.
loads : load_config decode_shop (nil, "version: 1") "/shop" ≡ (nil, shop_config)
unfolding up_code
loads = refl

-- Each tick of the clock takes from the ticks that are left.
clock_timed : Timed clock
unfolding nat_eq
clock_timed = record {
  left = λ w. w;
  follows = record {
    stays = λ w. omega arith;
    joins = λ u v w e f. omega (arith, e, f);
    compose_start_then = λ q w. omega arith;
    compose_stop_then = λ w. omega arith;
    start_then = λ name p w. omega arith;
    kill_then = λ name signal w. omega arith;
    await_then = λ name w. omega arith;
    poll_then = λ name w. omega arith;
    stat_then = λ path w. omega arith;
    readiness_then = λ w. omega arith;
    foreground_then = λ w. omega arith;
  };
  claim_then = λ c w. omega arith;
  publish_then = λ p w. omega arith;
  tick_ends = λ w ticks. ground arith;
  pause_ends = λ w waits. cc;
}

run_plan-ends_example : (r : Error × Session clock) × (run_plan clock 3 shop_plan 2 ≡ some r)
unfolding clock_timed
run_plan-ends_example = run_plan-ends clock clock_timed 3 shop_plan 2 (omega arith)
