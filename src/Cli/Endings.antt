-- ===== src/Cli/Endings.antt =====
-- cmd/zerobased/main.go: what a command leaves behind when it ends.
use zerobased.Base.{
  is_some, ℕ, String, ◌≡◌, ◌↔◌, subst, true, some, arith, Bool-cases, Option-cases, inl, inr, pos,
  ap,
}
use zerobased.Base.Dict.{Dict}
use zerobased.Zberr.Errors.{Error, nil, is_nil}
use zerobased.Zberr.Errors.Laws.{is_nil-eq}
use zerobased.Daemon.Startup.{Host, Hooks, nothing_held, start, close}
use zerobased.Daemon.Startup
use zerobased.Daemon.Startup.Closing.{IsFreed, nothing_held-IsFreed, close_lem}
use zerobased.Daemon.Startup.Balance.{start-Settled}
use zerobased.Up.Environment.{Environment}
use zerobased.Up.Run.{Plan, claim_of}
use zerobased.Up.Run
use zerobased.Up.Command.{Files, Options, run}
use zerobased.Up.Command.Effects.{CarriedOut, IsLoaded, run-Handled, invalid_not_nil}
use zerobased.Cli.{Outcome, run_start, run_up}

module _ {World : Type 0} (H : Host World) (hooks : String → Hooks World)
    (until_signal : World → World) where
  -- `zerobased start` leaves nothing held when it ends, but that the runtime may have something up if its
  -- Bootstrap or its Close has answered with an error, and its exit code is 0 exactly when the home was resolved
  -- and the daemon has started; for a runtime that can be closed if it bootstraps, an encoder that does not fail
  -- on a map of strings, and a session in which nothing is held.
  pub run_start_lem :
      (marshals : (d : Dict String) → is_nil ((H.marshal_indent d).0) ≡ true)
      (closable : (home : String)
        → is_some (hooks home).bootstrap ≡ true
        → is_some (hooks home).close ≡ true)
      (home : Error × String) (s : Startup.Session H)
      → s.held ≡ nothing_held
      → IsFreed H (run_start H hooks until_signal home s).1.held
        × (((run_start H hooks until_signal home s).0.code ≡ 0) ↔ (
            (is_nil home.0 ≡ true)
            × (is_nil ((start H (record { home = home.1; hooks = hooks home.1 }) s).0) ≡ true)))
  unfolding run_start
  run_start_lem marshals closable (unresolved, home) s e =
      let (err, r, s₁) = start H (record { home = home; hooks = hooks home }) s in
      let ended : Startup.Session H = record s₁ { world = until_signal s₁.world } in
      elim (Bool-cases (is_nil unresolved)) [
        | inr lost ↦ (ground (arith, nothing_held-IsFreed H s e), ground arith)
        | inl found ↦
            elim (start-Settled H marshals (record { home = home; hooks = hooks home }) s
              (closable home) e) [
                | inl (failed, freed) ↦ (ground (arith, freed), ground arith)
                | inr (up, names, _, _, _, _) ↦
                    (ground (arith, close_lem H r ended names), ground arith)
              ]
      ]

-- The options that `run_up` gives: the working directory, and the default timeout.
abbrev pub up_options : String → Options
up_options cwd = record { project_dir = cwd; has_control_plane = true; cleanup_timeout = pos 0 }

module _ (E : Environment) (F : Files) where
  -- If `zerobased up` ends with the exit code 0, the working directory is known, and a complete configuration
  -- has been loaded, without an error, from zerobased.yaml in the directory that the search from there finds;
  -- the calls made for that configuration and directory are balanced.
  pub run_up_lem :
      (depth fuel : ℕ) (home : Error × String) (w : E.World) (r : Outcome × Run.Session E)
      → run_up E F depth fuel home w ≡ some r
      → r.0.code ≡ 0
      → (cwd : String) × (F.getwd ≡ (nil, cwd))
        × ((p : Plan) × IsLoaded F depth (up_options cwd) p × CarriedOut E p w r.1)
  unfolding run_up
  run_up_lem depth fuel (unresolved, home) w r h ok =
      let (lost, cwd) = F.getwd in
      elim (Bool-cases (is_nil unresolved)) [
        | inr a ↦ absurd (ground arith)
        | inl b ↦ elim (Bool-cases (is_nil lost)) [
          | inr c ↦ absurd (ground arith)
          | inl d ↦ elim (Option-cases (run E F depth fuel (up_options cwd) w)) [
            | inl waits ↦ absurd (ground arith)
            | inr (q, e) ↦ elim (run-Handled E F depth fuel (up_options cwd) w q e) [
              | inl (invalid, _) ↦ absurd (ground (arith, invalid_not_nil q.0 invalid))
              | inr (p, loaded, done) ↦
                  let same : q.1 ≡ r.1 = ground arith in
                  (
                    cwd,
                    ap (λ x. (x, cwd)) (is_nil-eq lost d),
                    (p, loaded, subst (CarriedOut E p w) same done),
                  )
            ]
          ]
        ]
      ]
