-- ===== src/Up/Processes.antt =====
-- internal/up/runner.go: the processes of a run. The two loops that wait take fuel, a round each, and
-- answer `none` when it is spent: the loop is still waiting.
pub mod Waiting
use zerobased.Base.{
  ℕ, zero, suc, String, ◌<>◌, Bool, true, false, not, ◌&&◌, ◌||◌, Option, none, some, List, [], ◌∷◌,
  ◌++◌, if◌then◌else◌,
}
use zerobased.Base.Dict
use zerobased.Base.Dict.{Dict}
use zerobased.Base.Sorting.{sort_strings}
use zerobased.Zberr.Layer
use zerobased.Zberr.Code
use zerobased.Zberr.Errors.{Error, nil, plain, wrap, zb, is_nil, caused, canceled}
use zerobased.Up.Config.{ProcessConfig}
use zerobased.Up.Environment.{Environment, Signal, sigterm, sigkill, Wake, deadline, tick}
use zerobased.Up.Environment

abbrev pub start_failed : Error → Error
start_failed cause = caused Layer.stack_orchestrator Code.dependency_start_failed cause

abbrev pub not_ready : Error → Error
not_ready cause = caused Layer.stack_orchestrator Code.readiness_failed cause

-- The error of a process that exited, or that it did.
abbrev pub or_exited : Error → String → Error
or_exited err message = if is_nil err then plain message else err

-- errors.Is(err, context.Canceled)
unfoldable pub is_context_canceled : Error → Bool
is_context_canceled canceled = true
is_context_canceled (wrap _ e) = is_context_canceled e
is_context_canceled (zb _ _ _ _ k _) = is_context_canceled k
is_context_canceled _ = false

module _ (E : Environment) where
  unfoldable pub terminate_all : List String → E.World → E.World
  terminate_all [] w = w
  terminate_all (name ∷ names) w = terminate_all names (E.kill name sigterm w)

  unfoldable pub kill_remaining : List String → E.World → E.World
  kill_remaining [] w = w
  kill_remaining (name ∷ names) w =
      let (exited, w₁) = E.await_exit name w in
      kill_remaining names (if exited then w₁ else E.kill name sigkill w₁)

  unfoldable pub terminate_processes : List String → E.World → E.World
  terminate_processes names w = kill_remaining names (terminate_all names w)

  -- `processes[name]`, the zero value for a missing key
  abbrev pub process_of : String → Dict ProcessConfig → ProcessConfig
  process_of name processes = elim (Dict.lookup name processes) [
    | none ↦ record { command = []; readiness = record { kind = ""; path = "" } }
    | some p ↦ p
  ]

  -- The loop over the sorted names: what runs so far, and the first error.
  unfoldable pub start_named :
      List String → Dict ProcessConfig → List String → E.World → Error × List String × E.World
  start_named [] processes running w = (nil, running, w)
  start_named (name ∷ names) processes running w =
      let (err, w₁) = E.start_process name (process_of name processes) w in
      let rest = start_named names processes (running ++ name ∷ []) w₁ in
      if not (is_nil err) then (start_failed err, [], terminate_processes running w₁) else rest

  unfoldable pub start_processes : Dict ProcessConfig → E.World → Error × List String × E.World
  start_processes processes w = start_named (sort_strings (Dict.keys processes)) processes [] w

  unfoldable pub all_ready : Dict ProcessConfig → E.World → Bool × E.World
  all_ready [] w = (true, w)
  all_ready ((_, p) ∷ rest) w =
      let (err, w₁) = E.stat p.readiness.path w in
      let later = all_ready rest w₁ in if not (is_nil err) then (false, w₁) else later

  -- The first process of the list that has exited, with what `Wait` gave.
  unfoldable pub first_exit : List String → E.World → Option (String × Error) × E.World
  first_exit [] w = (none, w)
  first_exit (name ∷ names) w =
      let (exit, w₁) = E.poll_exit name w in
      let later = first_exit names w₁ in
      elim exit [ none ↦ later | some err ↦ (some (name, err), w₁) ]

  unfoldable pub wait_for_readiness :
      ℕ → Dict ProcessConfig → List String → E.World → Option (Error × E.World)
  wait_for_readiness zero processes running w = none
  wait_for_readiness (suc fuel) processes running w =
      let (ready, w₁) = all_ready processes w in
      let (exit, w₂) = first_exit running w₁ in
      let (wake, w₃) = E.readiness_select w₂ in
      let rest = wait_for_readiness fuel processes running w₃ in
      if ready then some (nil, w₁) else elim exit [
        | some (name, err) ↦
            some
              (not_ready (or_exited err ("process " <> (name <> " exited before readiness"))), w₂)
        | none ↦ elim wake [
          | Wake.canceled ↦ some (nil, w₃)
          | Wake.deadline ↦ some (not_ready (plain "readiness timeout"), w₃)
          | Wake.tick ↦ rest
        ]
      ]

  unfoldable pub wait_foreground : ℕ → List String → E.World → Option (Error × E.World)
  wait_foreground zero running w = none
  wait_foreground (suc fuel) running w =
      let (exit, w₁) = first_exit running w in
      let (done, w₂) = E.foreground_select w₁ in
      let rest = wait_foreground fuel running w₂ in
      if E.is_canceled w then some (nil, w) else elim exit [
        | some (name, err) ↦
            if E.is_canceled w₁ || is_context_canceled err
            then some (nil, w₁)
            else some (
              start_failed (
                  or_exited err
                    ("process " <> (name <> " exited while zerobased up was foreground"))),
              w₁,
            )
        | none ↦ if done then some (nil, w₂) else rest
      ]
