-- ===== src/Daemon/Startup/Balance.antt =====
-- internal/daemon/start.go: what a start and the closing of its result leave behind.
use zerobased.Base.{
  is_some, String, ◌<>◌, ◌≡◌, inl, inr, refl, sym, subst, true, not, ◌&&◌, arith, Bool-cases,
  Option-cases, ◌==◌, string_eq,
}
use zerobased.Base.Dict.{Dict}
use zerobased.Zberr.Errors.{is_nil, caused, plain}
use zerobased.Zberr.Errors.Laws.{is_nil-caused}
use zerobased.Zberr.Layer
use zerobased.Zberr.Code
use zerobased.Daemon.Startup.{
  Host, Hooks, nothing_held, Session, Config, StartResult, acquire_daemon_lock, close,
  listen_and_serve, boot, take_socket, start, bind_failed, bring_up, no_result, paths, ask, give_up,
}
use zerobased.Daemon.Startup.Closing.{Names, IsFreed, nothing_held-IsFreed, close_lem}
use zerobased.Daemon.Startup.Locking.{is_nil-bind_failed, acquire-LockedOrNot}
use zerobased.Daemon.Startup.Serving.{Settled, give_up-Settled, listen_and_serve-Settled}

module _ {World : Type 0} (H : Host World) where
  module _ (marshals : (d : Dict String) → is_nil ((H.marshal_indent d).0) ≡ true) where
    -- A runtime that bootstraps can be closed.
    module _ (hooks : Hooks World)
        (closable : is_some hooks.bootstrap ≡ true → is_some hooks.close ≡ true) where
      -- The lock is all that is held, and named.
      abbrev OnlyLocked : StartResult H → Session H → Type 0
      OnlyLocked r s =
          (r.lock_file ≡ true) × (s.held ≡ record nothing_held { file = true; lock = true })

      OnlyLocked-Names : (r : StartResult H) (s : Session H) → OnlyLocked r s → Names H r s.held
      OnlyLocked-Names r s (named, e) = record {
        file = λ h. named;
        lock = λ h. named;
        runtime = λ h. ground arith;
        listener = λ h. ground arith;
        server = λ h. ground arith;
      }

      boot-Settled :
          (r : StartResult H) (s : Session H) → OnlyLocked r s → Settled H (boot H hooks r s)
      unfolding boot
      boot-Settled r s (named, e) = elim (Option-cases hooks.bootstrap) [
        | inl none_ ↦
            let same : boot H hooks r s ≡ listen_and_serve H hooks r s = ground arith in
            subst (Settled H) (sym same) (
              listen_and_serve-Settled H marshals hooks r s
                (record {
                  file = λ h. named;
                  lock = λ h. named;
                  runtime = λ h. ground arith;
                  listener = λ h. ground arith;
                  server = λ h. ground arith;
                })
                (named, ground arith, ground arith, ground arith))
        | inr (op, some_) ↦
            let (failed, s₁) = bring_up H op s in
            elim (Bool-cases (is_nil failed)) [
              | inr refused ↦
                  let err = caused Layer.control_plane Code.boot_failed failed in
                  let same : boot H hooks r s ≡ give_up H err r s₁ = ground arith in
                  subst (Settled H) (sym same) (
                    give_up-Settled H err r s₁
                      (is_nil-caused Layer.control_plane Code.boot_failed failed)
                      (record {
                        file = λ h. named;
                        lock = λ h. named;
                        runtime = λ h. inr (ground arith);
                        listener = λ h. ground arith;
                        server = λ h. ground arith;
                      }))
              | inl up ↦
                  let same : boot H hooks r s ≡ listen_and_serve H hooks r s₁ = ground arith in
                  subst (Settled H) (sym same) (
                    listen_and_serve-Settled H marshals hooks r s₁
                      (record {
                        file = λ h. named;
                        lock = λ h. named;
                        runtime = λ h. inl (closable (ground arith));
                        listener = λ h. ground arith;
                        server = λ h. ground arith;
                      })
                      (named, ground arith, ground arith, ground arith))
            ]
      ]

      take_socket-Settled :
          (r : StartResult H) (s : Session H) → OnlyLocked r s → Settled H (take_socket H hooks r s)
      unfolding take_socket
      take_socket-Settled r s (named, e) =
          let (live, w) = H.dial r.socket_path s.world in
          let s₁ : Session H = record s { world = w } in
          let (unremoved, s₂) = ask H (H.remove r.socket_path) s₁ in
          elim (Bool-cases live) [
            | inl alive ↦
                let err =
                  bind_failed (plain ("daemon socket already exists at " <> r.socket_path)) in
                let same : take_socket H hooks r s ≡ give_up H err r s₁ = rw (alive) refl in
                subst (Settled H) (sym same) (
                  give_up-Settled H err r s₁
                    (is_nil-bind_failed
                      (plain ("daemon socket already exists at " <> r.socket_path)))
                    (OnlyLocked-Names r s₁ (named, e)))
            | inr dead ↦
                elim (Bool-cases (not (is_nil unremoved) && not (H.is_not_exist unremoved))) [
                  | inl stuck ↦
                      let same : take_socket H hooks r s ≡ give_up H (bind_failed unremoved) r s₂ =
                        rw (dead, stuck) refl in
                      subst (Settled H) (sym same) (
                        give_up-Settled H (bind_failed unremoved) r s₂
                          (is_nil-bind_failed unremoved) (OnlyLocked-Names r s₂ (named, e)))
                  | inr gone ↦
                      let same : take_socket H hooks r s ≡ boot H hooks r s₂ =
                        rw (dead, gone) refl in
                      subst (Settled H) (sym same) (boot-Settled r s₂ (named, e))
                ]
          ]

    -- From a session in which nothing is held, with a runtime that can be closed if it bootstraps and an
    -- encoder that does not fail on a map of strings, a start that fails leaves nothing held, but that the
    -- runtime may have something up if its Bootstrap or its Close has answered with an error; and one that
    -- succeeds holds the lock, the listener and the server, and its result names all that is held, again but
    -- for such a runtime.
    pub start-Settled :
        (config : Config H) (s : Session H)
        → (is_some config.hooks.bootstrap ≡ true → is_some config.hooks.close ≡ true)
        → s.held ≡ nothing_held
        → Settled H (start H config s)
    unfolding start
    start-Settled config s closable e =
        let (unmade, s₁) = ask H (H.mkdir_all config.home) s in
        let r : StartResult H = paths H config.home in
        let (unlocked, s₂) = acquire_daemon_lock H r.lock_path s₁ in
        let lock_or_not = acquire-LockedOrNot H r.lock_path s₁ e in
        elim (Bool-cases (config.home == "")) [
          | inl homeless ↦
              let err = bind_failed (plain "home is required") in
              let same : start H config s ≡ (err, no_result H, s) = rw (homeless) refl in
              subst (Settled H) (sym same)
                (inl (is_nil-bind_failed (plain "home is required"), nothing_held-IsFreed H s e))
          | inr at_home ↦ elim (Bool-cases (is_nil unmade)) [
            | inr no_dir ↦
                let same : start H config s ≡ (bind_failed unmade, no_result H, s₁) =
                  rw (at_home, no_dir) refl in
                subst (Settled H) (sym same)
                  (inl (is_nil-bind_failed unmade, nothing_held-IsFreed H s₁ e))
            | inl dir ↦ elim lock_or_not [
              | inl (bad, nothing) ↦
                  let same : start H config s ≡ (unlocked, no_result H, s₂) =
                    rw (at_home, dir, bad) refl in
                  subst (Settled H) (sym same) (inl (bad, nothing_held-IsFreed H s₂ nothing))
              | inr (good, lock) ↦
                  let named = record r { lock_file = true } in
                  let same : start H config s ≡ take_socket H config.hooks named s₂ =
                    rw (at_home, dir, good) refl in
                  subst (Settled H) (sym same)
                    (take_socket-Settled config.hooks closable named s₂ (refl, lock))
            ]
          ]
        ]

    -- From a session in which nothing is held, with a runtime that can be closed if it bootstraps and an
    -- encoder that does not fail on a map of strings, closing what a start has made without an error leaves
    -- nothing held, whatever errors the closing meets, but that the runtime may have something up if its
    -- Bootstrap or its Close has answered with an error.
    pub close-start :
        (config : Config H) (s : Session H)
        → (is_some config.hooks.bootstrap ≡ true → is_some config.hooks.close ≡ true)
        → s.held ≡ nothing_held
        → is_nil ((start H config s).0) ≡ true
        → IsFreed H (close H ((start H config s).1) ((start H config s).2)).1.held
    close-start config s closable e started = elim (start-Settled config s closable e) [
      | inl (failed, _) ↦ absurd (ground arith)
      | inr (_, names, _, _, _, _) ↦ close_lem H ((start H config s).1) ((start H config s).2) names
    ]
