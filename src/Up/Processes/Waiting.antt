-- ===== src/Up/Processes/Waiting.antt =====
-- The end of the loop of `waitForReadiness`.
use zerobased.Base.{
  ℕ, zero, suc, ◌<◌, ◌≤◌, String, ◌≡◌, ◌<>◌, ◌⊎◌, refl, some, List, [], ◌∷◌, inl, inr, arith,
  Bool-cases, Option-cases,
}
use zerobased.Base.Dict.{Dict}
use zerobased.Zberr.Errors.{Error, nil, plain}
use zerobased.Up.Config.{ProcessConfig}
use zerobased.Up.Environment.{Environment, Wake, tick, canceled, deadline}
use zerobased.Up.Processes.{not_ready, or_exited, all_ready, first_exit, wait_for_readiness}

wake_cases : (wake : Wake) → (wake ≡ tick) ⊎ ((wake ≡ deadline) ⊎ (wake ≡ canceled))
wake_cases tick = inl refl
wake_cases deadline = inr (inl refl)
wake_cases canceled = inr (inr refl)

-- `left` counts the ticks before the deadline's timer fires. The environment keeps what Go documents: a
-- look at a file or at a process leaves the timers alone, and each tick brings the deadline nearer.
module _ (E : Environment) (left : E.World → ℕ)
    (stat_keeps : (path : String) (w : E.World) → left ((E.stat path w).1) ≤ left w)
    (poll_keeps : (name : String) (w : E.World) → left ((E.poll_exit name w).1) ≤ left w)
    (tick_ends : (w : E.World)
      → (E.readiness_select w).0 ≡ tick
      → left ((E.readiness_select w).1) < left w) where
  all_ready_keeps :
      (processes : Dict ProcessConfig) (w : E.World) → left ((all_ready E processes w).1) ≤ left w
  unfolding all_ready
  all_ready_keeps [] w = ground arith
  all_ready_keeps ((name, p) ∷ rest) w =
      ground
        (arith, stat_keeps p.readiness.path w, all_ready_keeps rest ((E.stat p.readiness.path w).1))

  first_exit_keeps : (names : List String) (w : E.World) → left ((first_exit E names w).1) ≤ left w
  unfolding first_exit
  first_exit_keeps [] w = ground arith
  first_exit_keeps (name ∷ names) w =
      ground (arith, poll_keeps name w, first_exit_keeps names ((E.poll_exit name w).1))

  -- The readiness loop returns with more fuel than is left in the world, where each tick leaves less and
  -- looking at files and processes does not add to it.
  pub wait_for_readiness-ends :
      (fuel : ℕ) (processes : Dict ProcessConfig) (running : List String) (w : E.World)
      → left w < fuel
      → (r : Error × E.World) × (wait_for_readiness E fuel processes running w ≡ some r)
  unfolding wait_for_readiness
  wait_for_readiness-ends zero processes running w h = absurd (ground arith)
  wait_for_readiness-ends (suc fuel) processes running w h =
      let (ready, w₁) = all_ready E processes w in
      let (exit, w₂) = first_exit E running w₁ in
      let (wake, w₃) = E.readiness_select w₂ in
      elim (Bool-cases ready) [
        | inl is_ready ↦ ((nil, w₁), rw (is_ready) refl)
        | inr waits ↦ elim (Option-cases exit) [
          | inr ((name, err), exited) ↦ (
            (not_ready (or_exited err ("process " <> (name <> " exited before readiness"))), w₂),
            rw (waits, exited) refl,
          )
          | inl alive ↦ elim (wake_cases wake) [
            | inl ticks ↦
                let next = wait_for_readiness-ends fuel processes running w₃ (
                  ground (
                    arith,
                    all_ready_keeps processes w,
                    first_exit_keeps running w₁,
                    tick_ends w₂ ticks,
                  )) in
                (next.0, rw (waits, alive, ticks) (next.1))
            | inr (inl late) ↦
                ((not_ready (plain "readiness timeout"), w₃), rw (waits, alive, late) refl)
            | inr (inr over) ↦ ((nil, w₃), rw (waits, alive, over) refl)
          ]
        ]
      ]
