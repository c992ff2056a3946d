-- ===== src/Daemon/Startup/Serving.antt =====
-- internal/daemon/start.go: what a start leaves behind from its listener on.
use zerobased.Base.{
  String, ◌<>◌, ◌≡◌, ◌⊎◌, inl, inr, refl, sym, subst, true, false, some, Bool-cases, string_eq,
}
use zerobased.Base.Dict.{Dict}
use zerobased.Zberr.Errors.{Error, nil, is_nil, caused}
use zerobased.Zberr.Errors.Laws.{is_nil-caused}
use zerobased.Zberr.Layer
use zerobased.Zberr.Code
use zerobased.Daemon.Server.{init}
use zerobased.Daemon.Startup.{
  Host, Hooks, Session, StartResult, serve_health, listen_and_serve, bind_failed, call, ask,
  give_up, health,
}
use zerobased.Daemon.Startup.Closing.{IsFreed, Names, close_lem}
use zerobased.Daemon.Startup.Locking.{is_nil-bind_failed}

module _ {World : Type 0} (H : Host World) where
  -- With an error nothing is held but for a runtime that has failed; without one the daemon has its lock, its listener and its server, and
  -- the result names them.
  abbrev pub Settled : Error × StartResult H × Session H → Type 0
  Settled (err, r, s) =
      ((is_nil err ≡ false) × IsFreed H s.held)
      ⊎ ((is_nil err ≡ true)
          × Names H r s.held
          × (s.held.file ≡ true)
          × (s.held.lock ≡ true)
          × (s.held.listener ≡ true)
          × (s.held.server ≡ true))

  -- The lock file is held, open and locked, and neither the listener nor the server.
  abbrev pub Locked : StartResult H → Session H → Type 0
  Locked r s =
      (r.lock_file ≡ true) × (s.held.file ≡ true) × (s.held.lock ≡ true) × (s.held.server ≡ false)

  pub give_up-Settled :
      (err : Error) (r : StartResult H) (s : Session H)
      → is_nil err ≡ false
      → Names H r s.held
      → Settled (give_up H err r s)
  give_up-Settled err r s failed n = inl (failed, close_lem H r s n)

  module _ (marshals : (d : Dict String) → is_nil ((H.marshal_indent d).0) ≡ true) where
    serve_health-Settled :
        (r : StartResult H) (s : Session H)
        → Names H r s.held
        → Locked r s
        → s.held.listener ≡ true
        → r.listener ≡ true
        → Settled (serve_health H r s)
    unfolding serve_health
    serve_health-Settled r s n (named, file, lock, server) listens listener =
        let (wrote, s₁) =
          ask H (H.write_file r.health_path ((H.marshal_indent (health H s.world)).1 <> "\n")) s in
        elim (Bool-cases (is_nil wrote)) [
          | inl written ↦
              let same : serve_health H r s ≡ (
                nil,
                record r { server = some init },
                record { world = H.serve s₁.world; held = record s₁.held { server = true } },
              ) =
                rw (marshals (health H s.world), written) refl in
              subst Settled (sym same) (
                inr (
                  refl,
                  record {
                    file = λ h. named;
                    lock = λ h. named;
                    runtime = n.runtime;
                    listener = λ h. listener;
                    server = λ h. refl;
                  },
                  file,
                  lock,
                  listens,
                  refl,
                ))
          | inr unwritten ↦
              let same : serve_health H r s
                  ≡ give_up H (caused Layer.daemon_ipc Code.health_check_failed wrote) r s₁ =
                rw (marshals (health H s.world), unwritten) refl in
              subst Settled (sym same) (
                give_up-Settled (caused Layer.daemon_ipc Code.health_check_failed wrote) r s₁
                  (is_nil-caused Layer.daemon_ipc Code.health_check_failed wrote) n)
        ]

    pub listen_and_serve-Settled :
        (hooks : Hooks World) (r : StartResult H) (s : Session H)
        → Names H (record r { runtime = hooks.close }) s.held
        → Locked r s
        → Settled (listen_and_serve H hooks r s)
    unfolding listen_and_serve
    listen_and_serve-Settled hooks r₀ s n (named, file, lock, server) =
        let r = record r₀ { runtime = hooks.close } in
        let (unbound, s₁) =
          call H (H.listen r.socket_path) (λ held. record held { listener = true }) s in
        elim (Bool-cases (is_nil unbound)) [
          | inl bound ↦
              let same : listen_and_serve H hooks r₀ s
                  ≡ serve_health H (record r { listener = true })
                      (record { world = s₁.world; held = record s.held { listener = true } }) =
                rw (bound) refl in
              subst Settled (sym same) (
                serve_health-Settled (record r { listener = true })
                  (record { world = s₁.world; held = record s.held { listener = true } })
                  (record {
                    file = n.file;
                    lock = n.lock;
                    runtime = n.runtime;
                    listener = λ h. refl;
                    server = n.server;
                  })
                  (named, file, lock, server) refl refl)
          | inr unbound_ ↦
              let same : listen_and_serve H hooks r₀ s
                  ≡ give_up H (bind_failed unbound) r (record s { world = s₁.world }) =
                rw (unbound_) refl in
              subst Settled (sym same) (
                give_up-Settled (bind_failed unbound) r (record s { world = s₁.world })
                  (is_nil-bind_failed unbound) n)
        ]
