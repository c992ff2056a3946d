-- ===== src/Up/Run/Handing.antt =====
-- internal/up/runner.go: how a level of a run hands its claim to the level around it.
use zerobased.Base.{
  ℕ, String, ◌≡◌, ◌⊎◌, inl, inr, refl, sym, subst, true, false, Bool, some, List, arith, Bool-cases,
  Option-cases, string_eq,
}
use zerobased.Base.Dict.{Dict}
use zerobased.Controlplane.{Publication, Release}
use zerobased.Zberr.Layer
use zerobased.Zberr.Code
use zerobased.Zberr.Errors.{Error, nil, is_nil, is}
use zerobased.Zberr.Errors.Laws.{is-caused}
use zerobased.Up.Config.{ProcessConfig}
use zerobased.Up.Environment.{Environment}
use zerobased.Up.Processes.{
  start_processes, wait_for_readiness, wait_foreground, terminate_processes,
}
use zerobased.Up.Run.{
  starts, publishes, terminates, Session, note, cleanup_failed, release_claim, publish_and_wait,
  ready_and_publish, with_processes,
}
use zerobased.Up.Run.Watching.{
  Watched, terminate_processes-Then, start_processes-Then, wait_for_readiness-Then,
  wait_foreground-Then,
}

abbrev pub is_cleanup_failed : Error → Bool
is_cleanup_failed err = is err Layer.stack_orchestrator Code.cleanup_failed

pub cleanup_failed_lem :
    (failure primary : Error) → is_cleanup_failed (cleanup_failed failure primary) ≡ true
unfolding is cleanup_failed
cleanup_failed_lem failure primary = is-caused Layer.stack_orchestrator Code.cleanup_failed _

-- `Held` while the run has its claim, and `Gone` when it has given it back.
module _ (E : Environment) {S : Type 0} (V : Watched E S) (Held Gone : S → Type 0) (p : Publication)
    (l : Release) (publish_keeps : (w : E.World) → Held (V.see w) → Held (V.see (E.publish p w).1))
    (release_ends : (w : E.World)
      → Held (V.see w)
      → is_nil (E.release l w).0 ≡ true
      → Gone (V.see (E.release l w).1)) where
  abbrev pub Result : Type 0
  Result = Error × Bool × Session E

  -- The claim is given back, or its release has failed, as the error says.
  abbrev pub Ended : Error → S → Type 0
  Ended err d = Gone d ⊎ (is_cleanup_failed err ≡ true)

  -- A result of a level below: the claim is held if nothing was published.
  abbrev pub Handed : Result → Type 0
  Handed (err, published, s) =
      ((published ≡ false) × Held (V.see s.world))
      ⊎ ((published ≡ true) × Ended err (V.see s.world))

  pub release_claim-Ended :
      (primary : Error) (s : Session E)
      → Held (V.see s.world)
      → Ended (release_claim E l primary s).0 (V.see (release_claim E l primary s).1.world)
  unfolding release_claim
  release_claim-Ended primary s held =
      let (failure, w) = E.release l s.world in
      elim (Bool-cases (is_nil failure)) [
        | inl ok ↦ inl (release_ends s.world held ok)
        | inr bad ↦ inr (rw (bad) (cleanup_failed_lem failure primary))
      ]

  publish_and_wait-Handed :
      (fuel : ℕ) (running : List String) (s : Session E) (r : Result)
      → Held (V.see s.world)
      → publish_and_wait E fuel p l running s ≡ some r
      → Handed r
  unfolding publish_and_wait
  publish_and_wait-Handed fuel running s r held h =
      let (err, w) = E.publish p s.world in
      let kept = publish_keeps s.world held in
      elim (Bool-cases (is_nil err)) [
        | inr bad ↦ inl (ground arith, ground (arith, kept))
        | inl ok ↦ elim (Option-cases (wait_foreground E fuel running w)) [
          | inl waits ↦ absurd (ground arith)
          | inr ((result, w₂), e) ↦
              let seen =
                wait_foreground-Then E (λ a b. V.see b ≡ V.see a) V.follows fuel running w
                  (result, w₂) e in
              let s₁ : Session E = record (note E publishes w s) { world = w₂ } in
              let (final, s₂) = release_claim E l result s₁ in
              let same : (final, true, s₂) ≡ r = ground arith in
              subst Handed same
                (inr (refl, release_claim-Ended result s₁ (subst Held (sym seen) kept)))
        ]
      ]

  ready_and_publish-Handed :
      (fuel : ℕ) (processes : Dict ProcessConfig) (running : List String) (s : Session E)
      (r : Result)
      → Held (V.see s.world)
      → ready_and_publish E fuel processes p l running s ≡ some r
      → Handed r
  unfolding ready_and_publish
  ready_and_publish-Handed fuel processes running s r held h =
      elim (Option-cases (wait_for_readiness E fuel processes running s.world)) [
        | inl waits ↦ absurd (ground arith)
        | inr ((err, w), e) ↦
            let seen =
              wait_for_readiness-Then E (λ a b. V.see b ≡ V.see a) V.follows fuel processes running
                s.world (err, w) e in
            let kept : Held (V.see w) = subst Held (sym seen) held in
            let s₁ : Session E = record s { world = w } in
            elim (Bool-cases (E.is_canceled w)) [
              | inl over ↦
                  let same : (nil, false, s₁) ≡ r = ground arith in
                  subst Handed same (inl (refl, kept))
              | inr on ↦ elim (Bool-cases (is_nil err)) [
                | inr bad ↦
                    let same : (err, false, s₁) ≡ r = ground arith in
                    subst Handed same (inl (refl, kept))
                | inl ok ↦ publish_and_wait-Handed fuel running s₁ r kept (ground arith)
              ]
            ]
      ]

  pub with_processes-Handed :
      (fuel : ℕ) (processes : Dict ProcessConfig) (s : Session E) (r : Result)
      → Held (V.see s.world)
      → with_processes E fuel processes p l s ≡ some r
      → Handed r
  unfolding with_processes
  with_processes-Handed fuel processes s r held h =
      let (err, running, w) = start_processes E processes s.world in
      let kept : Held (V.see w) =
        subst Held
          (sym (start_processes-Then E (λ a b. V.see b ≡ V.see a) V.follows processes s.world))
          held in
      let s₁ : Session E = note E starts w s in
      elim (Bool-cases (is_nil err)) [
        | inr bad ↦ inl (ground arith, ground (arith, kept))
        | inl ok ↦ elim (Option-cases (ready_and_publish E fuel processes p l running s₁)) [
          | inl waits ↦ absurd (ground arith)
          | inr ((result, published, s₂), e) ↦
              let ended = terminate_processes E running s₂.world in
              let seen =
                terminate_processes-Then E (λ a b. V.see b ≡ V.see a) V.follows running s₂.world in
              let same : (result, published, note E terminates ended s₂) ≡ r = ground arith in
              subst Handed same
                (elim (ready_and_publish-Handed fuel processes running s₁ (result, published, s₂)
                  kept e) [
                    | inl (flag, still) ↦ inl (flag, subst Held (sym seen) still)
                    | inr (flag, gone) ↦ inr (flag, subst (Ended result) (sym seen) gone)
                  ])
        ]
      ]
