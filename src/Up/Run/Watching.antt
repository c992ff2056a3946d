-- ===== src/Up/Run/Watching.antt =====
-- internal/up/runner.go: what the calls of a run to the compose backend, processes, files and the clock come to.
use zerobased.Base.{
  ℕ, zero, suc, String, ◌≡◌, some, List, [], ◌∷◌, ◌++◌, arith, Bool-cases, Option-cases, inl, inr,
}
use zerobased.Base.Dict
use zerobased.Base.Dict.{Dict}
use zerobased.Base.Sorting.{sort_strings}
use zerobased.Zberr.Errors.{Error, is_nil}
use zerobased.Up.Config.{ProcessConfig}
use zerobased.Up.Environment.{Environment, Request, Signal, sigterm, sigkill}
use zerobased.Up.Processes.{
  start_processes, process_of, start_named, terminate_processes, terminate_all, kill_remaining,
  all_ready, first_exit, wait_for_readiness, wait_foreground,
}

-- A relation of worlds that every such call follows.
pub record Follows (E : Environment) (Then : E.World → E.World → Type 0) : Type 0 where
  pub stays : (w : E.World) → Then w w
  pub joins : (u v w : E.World) → Then u v → Then v w → Then u w
  pub compose_start_then : (q : Request) (w : E.World) → Then w (E.compose_start q w).1
  pub compose_stop_then : (w : E.World) → Then w (E.compose_stop w).1
  pub start_then :
      (name : String) (p : ProcessConfig) (w : E.World) → Then w (E.start_process name p w).1
  pub kill_then : (name : String) (signal : Signal) (w : E.World) → Then w (E.kill name signal w)
  pub await_then : (name : String) (w : E.World) → Then w (E.await_exit name w).1
  pub poll_then : (name : String) (w : E.World) → Then w (E.poll_exit name w).1
  pub stat_then : (path : String) (w : E.World) → Then w (E.stat path w).1
  pub readiness_then : (w : E.World) → Then w (E.readiness_select w).1
  pub foreground_then : (w : E.World) → Then w (E.foreground_select w).1

module _ (E : Environment) (Then : E.World → E.World → Type 0) (F : Follows E Then) where
  terminate_all-Then : (names : List String) (w : E.World) → Then w (terminate_all E names w)
  unfolding terminate_all
  terminate_all-Then [] w = F.stays w
  terminate_all-Then (name ∷ names) w =
      let w₁ = E.kill name sigterm w in
      F.joins w w₁ (terminate_all E names w₁) (F.kill_then name sigterm w)
        (terminate_all-Then names w₁)

  kill_remaining-Then : (names : List String) (w : E.World) → Then w (kill_remaining E names w)
  unfolding kill_remaining
  kill_remaining-Then [] w = F.stays w
  kill_remaining-Then (name ∷ names) w =
      let (exited, w₁) = E.await_exit name w in
      let w₂ = E.kill name sigkill w₁ in
      let waited = F.await_then name w in
      elim (Bool-cases exited) [
        | inl ended ↦
            rw (ended)
              (F.joins w w₁ (kill_remaining E names w₁) waited (kill_remaining-Then names w₁))
        | inr runs ↦ rw (runs) (
            F.joins w w₂ (kill_remaining E names w₂)
              (F.joins w w₁ w₂ waited (F.kill_then name sigkill w₁)) (kill_remaining-Then names w₂))
      ]

  pub terminate_processes-Then :
      (names : List String) (w : E.World) → Then w (terminate_processes E names w)
  unfolding terminate_processes
  terminate_processes-Then names w =
      let w₁ = terminate_all E names w in
      F.joins w w₁ (kill_remaining E names w₁) (terminate_all-Then names w)
        (kill_remaining-Then names w₁)

  start_named-Then :
      (names : List String) (processes : Dict ProcessConfig) (running : List String) (w : E.World)
      → Then w (start_named E names processes running w).2
  unfolding start_named
  start_named-Then [] processes running w = F.stays w
  start_named-Then (name ∷ names) processes running w =
      let p = process_of E name processes in
      let w₁ = (E.start_process name p w).1 in
      let started = F.start_then name p w in
      elim (Bool-cases (is_nil (E.start_process name p w).0)) [
        | inl ok ↦ rw (ok) (
            F.joins w w₁ (start_named E names processes (running ++ name ∷ []) w₁).2 started
              (start_named-Then names processes (running ++ name ∷ []) w₁))
        | inr bad ↦ rw (bad) (
            F.joins w w₁ (terminate_processes E running w₁) started
              (terminate_processes-Then running w₁))
      ]

  pub start_processes-Then :
      (processes : Dict ProcessConfig) (w : E.World) → Then w (start_processes E processes w).2
  unfolding start_processes
  start_processes-Then processes w =
      start_named-Then (sort_strings (Dict.keys processes)) processes [] w

  pub all_ready-Then :
      (processes : Dict ProcessConfig) (w : E.World) → Then w (all_ready E processes w).1
  unfolding all_ready
  all_ready-Then [] w = F.stays w
  all_ready-Then ((_, p) ∷ rest) w =
      let (err, w₁) = E.stat p.readiness.path w in
      let looked = F.stat_then p.readiness.path w in
      elim (Bool-cases (is_nil err)) [
        | inl there ↦
            rw (there) (F.joins w w₁ (all_ready E rest w₁).1 looked (all_ready-Then rest w₁))
        | inr missing ↦ rw (missing) looked
      ]

  pub first_exit-Then : (names : List String) (w : E.World) → Then w (first_exit E names w).1
  unfolding first_exit
  first_exit-Then [] w = F.stays w
  first_exit-Then (name ∷ names) w =
      let (exit, w₁) = E.poll_exit name w in
      let polled = F.poll_then name w in
      elim (Option-cases exit) [
        | inl runs ↦
            rw (first_exit, runs)
              (F.joins w w₁ (first_exit E names w₁).1 polled (first_exit-Then names w₁))
        | inr (err, ended) ↦ rw (first_exit, ended) polled
      ]

  pub wait_for_readiness-Then :
      (fuel : ℕ) (processes : Dict ProcessConfig) (running : List String) (w : E.World)
      (r : Error × E.World)
      → wait_for_readiness E fuel processes running w ≡ some r
      → Then w r.1
  unfolding wait_for_readiness
  wait_for_readiness-Then zero processes running w r h = absurd (ground arith)
  wait_for_readiness-Then (suc fuel) processes running w r h =
      let w₁ = (all_ready E processes w).1 in
      let w₂ = (first_exit E running w₁).1 in
      let w₃ = (E.readiness_select w₂).1 in
      let first = all_ready-Then processes w in
      let second = F.joins w w₁ w₂ first (first_exit-Then running w₁) in
      let third = F.joins w w₂ w₃ second (F.readiness_then w₂) in
      ground (
        arith,
        first,
        second,
        third,
        F.joins w w₃ r.1 third,
        wait_for_readiness-Then fuel processes running w₃ r,
      )

  pub wait_foreground-Then :
      (fuel : ℕ) (running : List String) (w : E.World) (r : Error × E.World)
      → wait_foreground E fuel running w ≡ some r
      → Then w r.1
  unfolding wait_foreground
  wait_foreground-Then zero running w r h = absurd (ground arith)
  wait_foreground-Then (suc fuel) running w r h =
      let w₁ = (first_exit E running w).1 in
      let w₂ = (E.foreground_select w₁).1 in
      let first = first_exit-Then running w in
      let second = F.joins w w₁ w₂ first (F.foreground_then w₁) in
      ground (
        arith,
        F.stays w,
        first,
        second,
        F.joins w w₂ r.1 second,
        wait_foreground-Then fuel running w₂ r,
      )

-- A part of the world that these calls leave alone.
pub record Watched (E : Environment) (S : Type 0) : Type 0 where
  pub see : E.World → S
  pub follows : Follows E (λ w v. see v ≡ see w)
