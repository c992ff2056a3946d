-- ===== src/Daemon/Startup/Resources.antt =====
-- internal/daemon/start.go: what `Start` and `Close` use of the operating system and of the route runtime.
use zerobased.Base.{String, Bool, false, Option, string_eq, if◌then◌else◌}
use zerobased.Base.Dict.{Dict}
use zerobased.Zberr.Layer
use zerobased.Zberr.Code
use zerobased.Zberr.Errors.{Error, is_nil, caused}

-- What the operating system does for one daemon. The lock file is the only file that it keeps open.
pub record Host (World : Type 0) : Type 0 where
  pub mkdir_all : String → World → Error × World
  pub open_lock_file : String → World → Error × World
  -- syscall.Flock with LOCK_EX|LOCK_NB, and with LOCK_UN
  pub flock : World → Error × World
  pub unlock : World → Error × World
  pub truncate : World → Error × World
  pub seek : World → Error × World
  -- fmt.Fprintf(file, "pid=%d\n", os.Getpid())
  pub write_pid : World → Error × World
  pub close_file : World → Error × World
  -- net.DialTimeout and the closing of the connection: whether there was one
  pub dial : String → World → Bool × World
  pub remove : String → World → Error × World
  pub is_not_exist : Error → Bool
  pub listen : String → World → Error × World
  pub close_listener : World → Error × World
  -- errors.Is(err, net.ErrClosed), errors.Is(err, http.ErrServerClosed)
  pub is_closed : Error → Bool
  pub is_server_closed : Error → Bool
  -- the goroutine of server.Serve, and server.Close
  pub serve : World → World
  pub close_server : World → Error × World
  -- time.Now().UTC().Format(time.RFC3339Nano)
  pub timestamp : World → String
  -- json.MarshalIndent of a map of strings
  pub marshal_indent : Dict String → Error × String
  pub write_file : String → String → World → Error × World

-- The type assertions on `config.RouteRuntime`: `none` for a runtime without the method, or no runtime.
pub record Hooks (World : Type 0) : Type 0 where
  pub bootstrap : Option (World → Error × World)
  pub close : Option (World → Error × World)

-- What the calls so far have taken and not given back. `runtime`: the runtime may have something up, since its
-- Bootstrap was called and no Close has succeeded; `runtime_failed`: one of the two has answered with an error.
pub record Held : Type 0 where
  pub file : Bool
  pub lock : Bool
  pub runtime : Bool
  pub runtime_failed : Bool
  pub listener : Bool
  pub server : Bool

abbrev pub nothing_held : Held
nothing_held = record {
  file = false;
  lock = false;
  runtime = false;
  runtime_failed = false;
  listener = false;
  server = false;
}

abbrev pub bind_failed : Error → Error
bind_failed cause = caused Layer.daemon_ipc Code.socket_bind_failed cause

-- The first of two errors.
abbrev pub first_error : Error → Error → Error
first_error err next = if is_nil err then next else err
