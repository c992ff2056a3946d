-- ===== src/Tests/Startup.antt =====
-- A daemon that starts and stops on a host where all goes well, and one whose lock is taken.
use zerobased.Base.{ℕ, suc, ◌≡◌, ◌↔◌, refl, true, false, some, string_eq, nat_eq}
use zerobased.Zberr.Errors.{Error, new, nil, plain, is_nil}
use zerobased.Daemon.Startup.{
  Host, Hooks, nothing_held, Session, Config, start, close, acquire_daemon_lock, fill_lock,
  take_socket, boot, listen_and_serve, serve_health, close_server, close_listener, close_runtime,
  close_lock,
}
use zerobased.Daemon.Startup.Closing.{IsFreed}
use zerobased.Daemon.Startup.Serving.{Settled}
use zerobased.Daemon.Startup.Balance.{start-Settled, close-start}
use zerobased.Cli.{run_start}
use zerobased.Cli.Endings.{run_start_lem}

-- The world counts the calls; `lock` is what the lock answers.
abbrev done : ℕ → Error × ℕ
done w = (nil, suc w)

abbrev host : Error → Host ℕ
host lock = record {
  mkdir_all = λ path w. done w;
  open_lock_file = λ path w. done w;
  flock = λ w. (lock, suc w);
  unlock = done;
  truncate = done;
  seek = done;
  write_pid = done;
  close_file = done;
  dial = λ path w. (false, suc w);
  remove = λ path w. (plain "no such file", suc w);
  is_not_exist = λ err. true;
  listen = λ path w. done w;
  close_listener = done;
  is_closed = λ err. true;
  is_server_closed = λ err. true;
  serve = λ w. suc w;
  close_server = done;
  timestamp = λ w. "2026-01-01T00:00:00Z";
  marshal_indent = λ d. (nil, "{}");
  write_file = λ path s w. done w;
}

abbrev free_host : Host ℕ
free_host = host nil

-- A runtime that bootstraps and can be closed.
abbrev both_hooks : Hooks ℕ
both_hooks = record { bootstrap = some done; close = some done }

abbrev config : Config free_host
config = record { home = "/h"; hooks = both_hooks }

abbrev free : Session free_host
free = record { world = 0; held = nothing_held }

start_code : Unit {0}
unfolding start acquire_daemon_lock fill_lock take_socket boot listen_and_serve serve_health
    string_eq
start_code = tt

give_back_code : Unit {0}
unfolding close close_server close_listener close_runtime close_lock
give_back_code = tt

start-Settled_example : Settled free_host (start free_host config free)
start-Settled_example = start-Settled free_host (λ d. refl) config free (λ h. refl) refl

close-start_example :
    IsFreed free_host
      (close free_host ((start free_host config free).1) ((start free_host config free).2)).1.held
unfolding start_code
close-start_example = close-start free_host (λ d. refl) config free (λ h. refl) refl refl

run_start_lem_example :
    IsFreed free_host (run_start free_host (λ home. both_hooks) suc (nil, "/h") free).1.held
    × (((run_start free_host (λ home. both_hooks) suc (nil, "/h") free).0.code ≡ 0)
        ↔ ((is_nil nil ≡ true) × (is_nil ((start free_host config free).0) ≡ true)))
run_start_lem_example =
    run_start_lem free_host (λ home. both_hooks) suc (λ d. refl) (λ home h. refl) (nil, "/h") free
      refl

-- A runtime whose Bootstrap fails may have something up, and is not closed.
abbrev failing : ℕ → Error × ℕ
failing w = (plain "reload failed", suc w)

stranded :
    (start free_host
      (record { home = "/h"; hooks = record both_hooks { bootstrap = some failing } })
      free).2.held
    ≡ record nothing_held { runtime = true; runtime_failed = true }
unfolding start_code give_back_code
stranded = refl

-- The lock of another daemon.
locked_out :
    (start
      (host (plain "resource temporarily unavailable"))
      (record { home = "/h"; hooks = both_hooks })
      (record { world = 0; held = nothing_held })).2
    ≡ record { world = 4; held = nothing_held }
unfolding start_code new
locked_out = refl
