-- ===== src/Up/Run/Returning.antt =====
-- internal/up/runner.go: a run returns, when its deadline and its interrupt come.
use zerobased.Base.{
  ℕ, zero, suc, ◌≤◌, ◌<◌, String, ◌≡◌, ◌<>◌, inl, inr, refl, false, Bool, ◌||◌, some, List, [],
  arith, Bool-cases, Option-cases, some_of,
}
use zerobased.Base.Dict.{Dict}
use zerobased.Controlplane.{Claim, ClaimReceipt, Publication, Release}
use zerobased.Zberr.Errors.{Error, nil, is_nil}
use zerobased.Up.Config.{ProcessConfig, enabled}
use zerobased.Up.Environment.{Environment, tick}
use zerobased.Up.Processes.{
  start_processes, first_exit, wait_for_readiness, wait_foreground, is_context_canceled, or_exited,
  start_failed,
}
use zerobased.Up.Processes.Waiting.{wait_for_readiness-ends}
use zerobased.Up.Run.{
  Plan, Session, publication_of, release_of, claim_of, compose_request, cleanup_timeout_or_default,
  note, starts, claims, composes, publish_and_wait, ready_and_publish, with_processes, with_compose,
  run_plan, claim_of,
}
use zerobased.Up.Run.Watching.{
  Follows, first_exit-Then, start_processes-Then, wait_for_readiness-Then,
}

-- How many ticks of the two loops are left, before the deadline of the readiness or the interrupt comes: no call
-- adds to it, and each tick takes from it.
pub record Timed (E : Environment) : Type 0 where
  pub left : E.World → ℕ
  pub follows : Follows E (λ w v. left v ≤ left w)
  pub claim_then : (c : Claim) (w : E.World) → left (E.claim c w).2 ≤ left w
  pub publish_then : (p : Publication) (w : E.World) → left (E.publish p w).1 ≤ left w
  pub tick_ends :
      (w : E.World) → (E.readiness_select w).0 ≡ tick → left (E.readiness_select w).1 < left w
  pub pause_ends :
      (w : E.World) → (E.foreground_select w).0 ≡ false → left (E.foreground_select w).1 < left w

module _ (E : Environment) (T : Timed E) where
  abbrev Less : E.World → E.World → Type 0
  Less w v = T.left v ≤ T.left w

  wait_foreground-ends :
      (fuel : ℕ) (running : List String) (w : E.World)
      → T.left w < fuel
      → (r : Error × E.World) × (wait_foreground E fuel running w ≡ some r)
  unfolding wait_foreground
  wait_foreground-ends zero running w h = absurd (ground arith)
  wait_foreground-ends (suc fuel) running w h =
      let (exit, w₁) = first_exit E running w in
      let (done, w₂) = E.foreground_select w₁ in
      elim (Bool-cases (E.is_canceled w)) [
        | inl over ↦ ((nil, w), rw (over) refl)
        | inr on ↦ elim (Option-cases exit) [
          | inr ((name, err), ended) ↦
              elim (Bool-cases (E.is_canceled w₁ || is_context_canceled err)) [
                | inl stopped ↦ ((nil, w₁), rw (on, ended, stopped) refl)
                | inr failed ↦ (
                  (
                    start_failed (
                        or_exited err
                          ("process " <> (name <> " exited while zerobased up was foreground"))),
                    w₁,
                  ),
                  rw (on, ended, failed) refl,
                )
              ]
          | inl alive ↦ elim (Bool-cases done) [
            | inl interrupted ↦ ((nil, w₂), rw (on, alive, interrupted) refl)
            | inr waits ↦
                let (r, e) = wait_foreground-ends fuel running w₂ (
                  ground
                    (arith, first_exit-Then E Less T.follows running w, T.pause_ends w₁ waits)) in
                (r, rw (on, alive, waits) e)
          ]
        ]
      ]

  readiness-ends :
      (fuel : ℕ) (processes : Dict ProcessConfig) (running : List String) (w : E.World)
      → T.left w < fuel
      → (r : Error × E.World) × (wait_for_readiness E fuel processes running w ≡ some r)
  readiness-ends =
      wait_for_readiness-ends E T.left T.follows.stat_then T.follows.poll_then T.tick_ends

  publish_and_wait-ends :
      (fuel : ℕ) (p : Publication) (l : Release) (running : List String) (s : Session E)
      → T.left s.world < fuel
      → (r : Error × Bool × Session E) × (publish_and_wait E fuel p l running s ≡ some r)
  unfolding publish_and_wait
  publish_and_wait-ends fuel p l running s h =
      let (err, w) = E.publish p s.world in
      let (q, e) = wait_foreground-ends fuel running w (ground (arith, T.publish_then p s.world)) in
      some_of (publish_and_wait E fuel p l running s)
        (elim (Bool-cases (is_nil err)) [ inl ok ↦ rw (ok, e) refl | inr bad ↦ rw (bad) refl ])

  ready_and_publish-ends :
      (fuel : ℕ) (processes : Dict ProcessConfig) (p : Publication) (l : Release)
      (running : List String) (s : Session E)
      → T.left s.world < fuel
      → (r : Error × Bool × Session E) × (ready_and_publish E fuel processes p l running s ≡ some r)
  unfolding ready_and_publish
  ready_and_publish-ends fuel processes p l running s h =
      let ((err, w), e) = readiness-ends fuel processes running s.world h in
      let few =
        wait_for_readiness-Then E Less T.follows fuel processes running s.world (err, w) e in
      let s₁ : Session E = record s { world = w } in
      let (r, returned) = publish_and_wait-ends fuel p l running s₁ (omega (arith, few)) in
      some_of (ready_and_publish E fuel processes p l running s)
        (elim (Bool-cases (E.is_canceled w)) [
          | inl over ↦ rw (ready_and_publish, e, over) refl
          | inr on ↦ elim (Bool-cases (is_nil err)) [
            | inr bad ↦ rw (ready_and_publish, e, on, bad) refl
            | inl ok ↦ rw (ready_and_publish, e, on, ok, returned) refl
          ]
        ])

  with_processes-ends :
      (fuel : ℕ) (processes : Dict ProcessConfig) (p : Publication) (l : Release) (s : Session E)
      → T.left s.world < fuel
      → (r : Error × Bool × Session E) × (with_processes E fuel processes p l s ≡ some r)
  unfolding with_processes
  with_processes-ends fuel processes p l s h =
      let (err, running, w) = start_processes E processes s.world in
      let few = start_processes-Then E Less T.follows processes s.world in
      let (r, e) =
        ready_and_publish-ends fuel processes p l running (note E starts w s)
          (omega (arith, few)) in
      some_of (with_processes E fuel processes p l s)
        (elim (Bool-cases (is_nil err)) [ inr bad ↦ rw (bad) refl | inl ok ↦ rw (ok, e) refl ])

  with_compose-ends :
      (fuel : ℕ) (plan : Plan) (g : ClaimReceipt) (s : Session E)
      → T.left s.world < fuel
      → (r : Error × Bool × Session E) × (with_compose E fuel plan g s ≡ some r)
  unfolding with_compose
  with_compose-ends fuel plan g s h =
      let below =
        with_processes-ends fuel plan.config.processes (publication_of plan g)
          (release_of plan g) in
      let request =
        compose_request plan.project_dir plan.config plan.session_id
          (cleanup_timeout_or_default plan.cleanup_timeout) in
      let (err, w) = E.compose_start request s.world in
      let (r, e) =
        below (note E composes w s) (omega (arith, T.follows.compose_start_then request s.world)) in
      some_of (with_compose E fuel plan g s) (elim (Bool-cases (enabled plan.config.compose)) [
        | inr off ↦ let (q, alone) = below s h in rw (off, alone) refl
        | inl on ↦ elim (Bool-cases (is_nil err)) [
          | inr bad ↦ rw (on, bad) refl
          | inl ok ↦ rw (on, ok, e) refl
        ]
      ])

  -- A run returns with more fuel than there are ticks left, where no call adds to these, a tick of the readiness
  -- loop that is no deadline takes from them, and a tick of the foreground loop that is no interrupt too.
  pub run_plan-ends :
      (fuel : ℕ) (plan : Plan) (w : E.World)
      → T.left w < fuel
      → (r : Error × Session E) × (run_plan E fuel plan w ≡ some r)
  unfolding run_plan
  run_plan-ends fuel plan w h =
      let (g, err, w₁) = E.claim (claim_of plan) w in
      let s : Session E = note E claims w₁ (record { world = w; trace = [] }) in
      let (r, e) =
        with_compose-ends fuel plan g s (omega (arith, T.claim_then (claim_of plan) w)) in
      some_of (run_plan E fuel plan w) (elim (Bool-cases (is_nil err)) [
        | inr refused ↦ rw (refused) refl
        | inl granted ↦ rw (granted, e) refl
      ])
