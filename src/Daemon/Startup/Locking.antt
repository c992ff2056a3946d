-- ===== src/Daemon/Startup/Locking.antt =====
-- internal/daemon/start.go: the lock after `acquireDaemonLock`.
use zerobased.Base.{String, ◌<>◌, ◌≡◌, ◌⊎◌, true, false, arith, string_eq}
use zerobased.Zberr.Errors.{Error, is_nil, wrap, text}
use zerobased.Zberr.Errors.Laws.{is_nil-caused}
use zerobased.Zberr.Layer
use zerobased.Zberr.Code
use zerobased.Daemon.Startup.{
  Host, nothing_held, Session, fill_lock, acquire_daemon_lock, bind_failed, call, ask,
}
use zerobased.Daemon.Startup.Closing.{held-close_lock}

pub is_nil-bind_failed : (cause : Error) → is_nil (bind_failed cause) ≡ false
is_nil-bind_failed cause = is_nil-caused Layer.daemon_ipc Code.socket_bind_failed cause

module _ {World : Type 0} (H : Host World) where
  -- The lock is all that is held, or there is an error and nothing is.
  abbrev pub LockedOrNot : Error × Session H → Type 0
  LockedOrNot (err, s) =
      ((is_nil err ≡ false) × (s.held ≡ nothing_held))
      ⊎ ((is_nil err ≡ true) × (s.held ≡ record nothing_held { file = true; lock = true }))

  fill_lock-LockedOrNot :
      (s : Session H)
      → s.held ≡ record nothing_held { file = true; lock = true }
      → LockedOrNot (fill_lock H s)
  unfolding fill_lock
  fill_lock-LockedOrNot s e =
      let (truncated, s₁) = ask H H.truncate s in
      let (sought, s₂) = ask H H.seek s₁ in
      let (wrote, s₃) = ask H H.write_pid s₂ in
      ground (
        arith,
        held-close_lock H s₁,
        held-close_lock H s₂,
        held-close_lock H s₃,
        is_nil-bind_failed truncated,
        is_nil-bind_failed sought,
        is_nil-bind_failed wrote,
      )

  pub acquire-LockedOrNot :
      (path : String) (s : Session H)
      → s.held ≡ nothing_held
      → LockedOrNot (acquire_daemon_lock H path s)
  unfolding acquire_daemon_lock
  acquire-LockedOrNot path s e =
      let (opened, s₁) = call H (H.open_lock_file path) (λ held. record held { file = true }) s in
      let (locked, s₂) = call H H.flock (λ held. record held { lock = true }) s₁ in
      ground (
        arith,
        is_nil-bind_failed opened,
        is_nil-bind_failed
            (wrap ("daemon lock held at " <> (path <> (": " <> text locked))) locked),
        fill_lock-LockedOrNot s₂,
      )
