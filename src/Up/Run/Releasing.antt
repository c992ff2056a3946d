-- ===== src/Up/Run/Releasing.antt =====
-- internal/up/runner.go: a run that has claimed its host gives it back.
use zerobased.Base.{
  ℕ, ◌≡◌, ◌⊎◌, inl, inr, sym, subst, true, false, Bool, some, [], arith, Bool-cases, Option-cases,
  string_eq,
}
use zerobased.Controlplane.{ClaimReceipt, Publication, Release}
use zerobased.Zberr.Errors.{Error, is_nil}
use zerobased.Up.Config.{enabled}
use zerobased.Up.Environment.{Environment}
use zerobased.Up.Run.{
  claims, composes, decomposes, Plan, Session, publication_of, release_of, compose_request,
  cleanup_timeout_or_default, Outcome, note, claim_of, after_cleanup, with_processes, with_compose,
  run_plan, release_unless,
}
use zerobased.Up.Run.Watching.{Watched}
use zerobased.Up.Run.Handing.{
  is_cleanup_failed, cleanup_failed_lem, Handed, Ended, release_claim-Ended, with_processes-Handed,
}

-- A plan's publication and release, with the receipt of its claim.
module _ (E : Environment) {S : Type 0} (V : Watched E S) (Held Gone : S → Type 0) (plan : Plan)
    (receipt : ClaimReceipt)
    (publish_keeps : (w : E.World)
      → Held (V.see w)
      → Held (V.see (E.publish (publication_of plan receipt) w).1))
    (release_ends : (w : E.World)
      → Held (V.see w)
      → is_nil (E.release (release_of plan receipt) w).0 ≡ true
      → Gone (V.see (E.release (release_of plan receipt) w).1)) where
  abbrev p : Publication
  p = publication_of plan receipt

  abbrev l : Release
  l = release_of plan receipt

  stop_compose-Handed :
      (err : Error) (published : Bool) (s : Session E)
      → Handed E V Held Gone p l publish_keeps release_ends (err, published, s)
      → let (failure, w) = E.compose_stop s.world in
        Handed E V Held Gone p l publish_keeps release_ends
          (after_cleanup failure err, published, note E decomposes w s)
  stop_compose-Handed err published s handed =
      let (failure, w) = E.compose_stop s.world in
      let seen = V.follows.compose_stop_then s.world in
      elim handed [
        | inl (flag, held) ↦ inl (flag, subst Held (sym seen) held)
        | inr (flag, inl gone) ↦ inr (flag, inl (subst Gone (sym seen) gone))
        | inr (flag, inr failed) ↦ inr (flag, inr (ground (arith, cleanup_failed_lem failure err)))
      ]

  with_compose-Handed :
      (fuel : ℕ) (s : Session E) (r : Error × Bool × Session E)
      → Held (V.see s.world)
      → with_compose E fuel plan receipt s ≡ some r
      → Handed E V Held Gone p l publish_keeps release_ends r
  unfolding with_compose
  with_compose-Handed fuel s r held h =
      let inner : Session E → Outcome E = with_processes E fuel plan.config.processes p l in
      let below =
        with_processes-Handed E V Held Gone p l publish_keeps release_ends fuel
          plan.config.processes in
      elim (Bool-cases (enabled plan.config.compose)) [
        | inr off ↦ below s r held (ground arith)
        | inl on ↦
            let request =
              compose_request plan.project_dir plan.config plan.session_id
                (cleanup_timeout_or_default plan.cleanup_timeout) in
            let (err, w) = E.compose_start request s.world in
            let kept : Held (V.see w) =
              subst Held (sym (V.follows.compose_start_then request s.world)) held in
            let s₁ : Session E = note E composes w s in
            elim (Bool-cases (is_nil err)) [
              | inr bad ↦ inl (ground arith, ground (arith, kept))
              | inl ok ↦ elim (Option-cases (inner s₁)) [
                | inl waits ↦ absurd (ground arith)
                | inr ((result, published, s₂), e) ↦
                    let (failure, w₂) = E.compose_stop s₂.world in
                    let same : (after_cleanup failure result, published, note E decomposes w₂ s₂)
                        ≡ r =
                      ground arith in
                    subst (Handed E V Held Gone p l publish_keeps release_ends) same (
                      stop_compose-Handed result published s₂
                        (below s₁ (result, published, s₂) kept e))
              ]
            ]
      ]

  release_unless-Ended :
      (r : Error × Bool × Session E)
      → Handed E V Held Gone p l publish_keeps release_ends r
      → Ended E V Held Gone p l publish_keeps release_ends
          (release_unless E l r).0
          (V.see (release_unless E l r).1.world)
  release_unless-Ended (err, true, s) (inl (flag, held)) = absurd (ground arith)
  release_unless-Ended (err, true, s) (inr (flag, ended)) = ended
  release_unless-Ended (err, false, s) (inl (flag, held)) =
      release_claim-Ended E V Held Gone p l publish_keeps release_ends err s held
  release_unless-Ended (err, false, s) (inr (flag, ended)) = absurd (ground arith)

  -- A run whose claim is granted, with the receipt, and which returns has given its claim back, or its answer is
  -- the error of a clean-up that failed.
  pub run_plan-Ended :
      (fuel : ℕ) (w : E.World) (r : Error × Session E)
      → run_plan E fuel plan w ≡ some r
      → is_nil (E.claim (claim_of plan) w).1 ≡ true
      → (E.claim (claim_of plan) w).0 ≡ receipt
      → Held (V.see (E.claim (claim_of plan) w).2)
      → Gone (V.see r.1.world) ⊎ (is_cleanup_failed r.0 ≡ true)
  unfolding run_plan
  run_plan-Ended fuel w r h granted same held =
      let s : Session E =
        note E claims (E.claim (claim_of plan) w).2 (record { world = w; trace = [] }) in
      elim (Option-cases (with_compose E fuel plan receipt s)) [
        | inl waits ↦ absurd (ground arith)
        | inr (q, e) ↦
            let ended = release_unless-Ended q (with_compose-Handed fuel s q held e) in
            let final : release_unless E l q ≡ r = ground arith in
            subst
              (λ (x : Error × Session E). Gone (V.see x.1.world) ⊎ (is_cleanup_failed x.0 ≡ true))
              final ended
      ]
