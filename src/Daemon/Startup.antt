-- ===== src/Daemon/Startup.antt =====
-- internal/daemon/start.go: `Start` and `Close`. The operating system is the record Host, and what the route
-- runtime offers besides its two operations is the record Hooks. A session has the world, and what the calls
-- so far have taken and not given back.
pub mod Resources
pub mod Closing
pub mod Locking
pub mod Serving
pub mod Balance
use zerobased.Base.{
  String, ◌<>◌, Bool, true, false, not, ◌&&◌, ◌||◌, Option, none, some, [], ◌∷◌, ◌==◌, string_eq,
  if◌then◌else◌,
}
use zerobased.Base.Dict.{Dict}
use zerobased.Base.FilePath.{join_path}
use zerobased.Zberr.Layer
use zerobased.Zberr.Code
use zerobased.Zberr.Errors.{Error, nil, plain, wrap, is_nil, caused, critical, text}
use zerobased.Daemon.Server.{ApiServer, init}
pub use zerobased.Daemon.Startup.Resources.{
  Host, Hooks, Held, nothing_held, bind_failed, first_error,
}

module _ {World : Type 0} (H : Host World) where
  pub record Session : Type 0 where
    pub world : World
    pub held : Held

  pub record Config : Type 0 where
    pub home : String
    pub hooks : Hooks World

  pub record StartResult : Type 0 where
    pub lock_path : String
    pub socket_path : String
    pub health_path : String
    pub listener : Bool
    pub server : Option ApiServer
    pub lock_file : Bool
    pub runtime : Option (World → Error × World)

  -- `StartResult{}`
  abbrev pub no_result : StartResult
  no_result = record {
    lock_path = "";
    socket_path = "";
    health_path = "";
    listener = false;
    server = none;
    lock_file = false;
    runtime = none;
  }

  -- A call, which changes what `taken` says if it answers without an error.
  abbrev pub call : (World → Error × World) → (Held → Held) → Session → Error × Session
  call op taken s =
      let (err, w) = op s.world in
      (err, record { world = w; held = if is_nil err then taken s.held else s.held })

  -- A call that gives back, whatever it answers: close(2) releases a descriptor, and the lock on it, also when
  -- it reports an error, and closing a server or a listener closes its descriptor.
  abbrev pub give_back : (World → Error × World) → (Held → Held) → Session → Error × Session
  give_back op given s =
      let (err, w) = op s.world in (err, record { world = w; held = given s.held })

  -- `Bootstrap`, which may have something up after an error too.
  abbrev pub bring_up : (World → Error × World) → Session → Error × Session
  bring_up op s =
      let (err, w) = op s.world in
      (
        err,
        record {
          world = w;
          held = record s.held {
            runtime = true;
            runtime_failed = s.held.runtime_failed || not (is_nil err);
          };
        },
      )

  -- The runtime's `Close`, which may leave something up when it answers with an error.
  abbrev pub take_down : (World → Error × World) → Session → Error × Session
  take_down op s =
      let (err, w) = op s.world in
      (
        err,
        record {
          world = w;
          held = record s.held {
            runtime = s.held.runtime && not (is_nil err);
            runtime_failed = s.held.runtime_failed || not (is_nil err);
          };
        },
      )

  -- A call that takes and gives nothing.
  abbrev pub ask : (World → Error × World) → Session → Error × Session
  ask op s = let (err, w) = op s.world in (err, record s { world = w })

  abbrev close_lock_file : Session → Error × Session
  close_lock_file s = give_back H.close_file (λ held. record held { file = false; lock = false }) s

  -- `closeLock`, on a file
  unfoldable pub close_lock : Session → Error × Session
  close_lock s =
      let (locked, s₁) = call H.unlock (λ held. record held { lock = false }) s in
      let (err, s₂) = close_lock_file s₁ in if not (is_nil locked) then (locked, s₂) else (err, s₂)

  -- `acquireDaemonLock` from the lock on.
  unfoldable pub fill_lock : Session → Error × Session
  fill_lock s =
      let (truncated, s₁) = ask H.truncate s in
      let (sought, s₂) = ask H.seek s₁ in
      let (wrote, s₃) = ask H.write_pid s₂ in
      if not (is_nil truncated)
      then (bind_failed truncated, (close_lock s₁).1)
      else if not (is_nil sought)
      then (bind_failed sought, (close_lock s₂).1)
      else if not (is_nil wrote)
      then (bind_failed wrote, (close_lock s₃).1)
      else (nil, s₃)

  unfoldable pub acquire_daemon_lock : String → Session → Error × Session
  acquire_daemon_lock path s =
      let (opened, s₁) = call (H.open_lock_file path) (λ held. record held { file = true }) s in
      let (locked, s₂) = call H.flock (λ held. record held { lock = true }) s₁ in
      if not (is_nil opened)
      then (bind_failed opened, s₁)
      else if not (is_nil locked)
      then (
        bind_failed (wrap ("daemon lock held at " <> (path <> (": " <> text locked))) locked),
        (close_lock_file s₂).1,
      )
      else fill_lock s₂

  abbrev unless_closed : (Error → Bool) → Error → Error
  unless_closed is_over err = if is_over err then nil else err

  -- The part of `Close` for each field of the result: its error, if it counts.
  unfoldable pub close_server : StartResult → Session → Error × Session
  close_server r s = elim r.server [
    | none ↦ (nil, s)
    | some _ ↦
        let (err, s₁) = give_back H.close_server (λ held. record held { server = false }) s in
        (unless_closed H.is_server_closed err, s₁)
  ]

  unfoldable pub close_listener : StartResult → Session → Error × Session
  close_listener r s =
      let (err, s₁) = give_back H.close_listener (λ held. record held { listener = false }) s in
      if r.listener then (unless_closed H.is_closed err, s₁) else (nil, s)

  unfoldable pub close_runtime : StartResult → Session → Error × Session
  close_runtime r s = elim r.runtime [ none ↦ (nil, s) | some op ↦ take_down op s ]

  -- `Close`
  unfoldable pub close : StartResult → Session → Error × Session
  close r s =
      let (of_server, s₁) = close_server r s in
      let (of_listener, s₂) = close_listener r s₁ in
      let (of_runtime, s₃) = close_runtime r s₂ in
      let (of_lock, s₄) = if r.lock_file then close_lock s₃ else (nil, s₃) in
      (first_error of_server (first_error of_listener (first_error of_runtime of_lock)), s₄)

  -- An error return after `_ = result.Close()`.
  abbrev pub give_up : Error → StartResult → Session → Error × StartResult × Session
  give_up err r s = (err, no_result, (close r s).1)

  abbrev pub health : World → Dict String
  health w = ("status", "healthy") ∷ ("timestamp", H.timestamp w) ∷ []

  -- `Start` from the listener on.
  unfoldable pub serve_health : StartResult → Session → Error × StartResult × Session
  serve_health r s =
      let (bad, payload) = H.marshal_indent (health s.world) in
      let (wrote, s₁) = ask (H.write_file r.health_path (payload <> "\n")) s in
      if not (is_nil bad)
      then (critical Layer.daemon_ipc bad [], no_result, s)
      else if not (is_nil wrote)
      then give_up (caused Layer.daemon_ipc Code.health_check_failed wrote) r s₁
      else (
        nil,
        record r { server = some init },
        record { world = H.serve s₁.world; held = record s₁.held { server = true } },
      )

  -- From the bootstrapped runtime on.
  unfoldable pub listen_and_serve :
      Hooks World → StartResult → Session → Error × StartResult × Session
  listen_and_serve hooks r₀ s =
      let r = record r₀ { runtime = hooks.close } in
      let (unbound, s₁) =
        call (H.listen r.socket_path) (λ held. record held { listener = true }) s in
      if not (is_nil unbound)
      then give_up (bind_failed unbound) r s₁
      else serve_health (record r { listener = true }) s₁

  -- From the removed socket on.
  unfoldable pub boot : Hooks World → StartResult → Session → Error × StartResult × Session
  boot hooks r s = elim hooks.bootstrap [
    | none ↦ listen_and_serve hooks r s
    | some op ↦
        let (failed, s₁) = bring_up op s in
        if not (is_nil failed)
        then give_up (caused Layer.control_plane Code.boot_failed failed) r s₁
        else listen_and_serve hooks r s₁
  ]

  -- From the acquired lock on.
  unfoldable pub take_socket : Hooks World → StartResult → Session → Error × StartResult × Session
  take_socket hooks r s =
      let (live, w) = H.dial r.socket_path s.world in
      let s₁ = record s { world = w } in
      let (unremoved, s₂) = ask (H.remove r.socket_path) s₁ in
      if live
      then give_up (bind_failed (plain ("daemon socket already exists at " <> r.socket_path))) r s₁
      else if not (is_nil unremoved) && not (H.is_not_exist unremoved)
      then give_up (bind_failed unremoved) r s₂
      else boot hooks r s₂

  abbrev pub paths : String → StartResult
  paths home = record no_result {
    lock_path = join_path (home ∷ "daemon.lock" ∷ []);
    socket_path = join_path (home ∷ "daemon.sock" ∷ []);
    health_path = join_path (home ∷ "health.json" ∷ []);
  }

  unfoldable pub start : Config → Session → Error × StartResult × Session
  start config s =
      let (unmade, s₁) = ask (H.mkdir_all config.home) s in
      let r = paths config.home in
      let (unlocked, s₂) = acquire_daemon_lock r.lock_path s₁ in
      if config.home == ""
      then (bind_failed (plain "home is required"), no_result, s)
      else if not (is_nil unmade)
      then (bind_failed unmade, no_result, s₁)
      else if not (is_nil unlocked)
      then (unlocked, no_result, s₂)
      else take_socket config.hooks (record r { lock_file = true }) s₂
