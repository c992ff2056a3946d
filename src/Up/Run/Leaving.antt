-- ===== src/Up/Run/Leaving.antt =====
-- internal/up/runner.go: what all calls of a run together come to.
use zerobased.Base.{
  ℕ, String, ◌≡◌, inl, inr, Bool, true, false, some, List, [], arith, Bool-cases, Option-cases,
}
use zerobased.Base.Dict.{Dict}
use zerobased.Controlplane.{ClaimReceipt, Publication, Release}
use zerobased.Zberr.Errors.{Error, is_nil}
use zerobased.Up.Config.{ProcessConfig, enabled}
use zerobased.Up.Environment.{Environment}
use zerobased.Up.Processes.{
  start_processes, wait_for_readiness, wait_foreground, terminate_processes,
}
use zerobased.Up.Run.{
  Plan, Session, publication_of, release_of, claim_of, compose_request, cleanup_timeout_or_default,
  Outcome, note, starts, claims, composes, release_claim, publish_and_wait, ready_and_publish,
  with_processes, with_compose, run_plan, release_unless,
}
use zerobased.Up.Run.Watching.{
  Follows, terminate_processes-Then, start_processes-Then, wait_for_readiness-Then,
  wait_foreground-Then,
}

-- A relation of worlds that the calls of one plan to the control plane follow too.
pub record Leaves (E : Environment) (plan : Plan) (Then : E.World → E.World → Type 0) : Type 0 where
  pub follows : Follows E Then
  pub claim_then : (w : E.World) → Then w (E.claim (claim_of plan) w).2
  pub publish_then :
      (g : ClaimReceipt) (w : E.World) → Then w (E.publish (publication_of plan g) w).1
  pub release_then : (g : ClaimReceipt) (w : E.World) → Then w (E.release (release_of plan g) w).1

module _ (E : Environment) (plan : Plan) (Then : E.World → E.World → Type 0)
    (F : Leaves E plan Then) (g : ClaimReceipt) where
  abbrev joins : (u v w : E.World) → Then u v → Then v w → Then u w
  joins = F.follows.joins

  abbrev p : Publication
  p = publication_of plan g

  abbrev l : Release
  l = release_of plan g

  publish_and_wait-Then :
      (fuel : ℕ) (running : List String) (s : Session E) (r : Error × Bool × Session E)
      → publish_and_wait E fuel p l running s ≡ some r
      → Then s.world r.2.world
  unfolding publish_and_wait release_claim
  publish_and_wait-Then fuel running s r h =
      let (err, w) = E.publish p s.world in
      let sent = F.publish_then g s.world in
      elim (Bool-cases (is_nil err)) [
        | inr bad ↦ ground (arith, sent)
        | inl ok ↦ elim (Option-cases (wait_foreground E fuel running w)) [
          | inl waits ↦ absurd (ground arith)
          | inr ((result, w₂), e) ↦
              let waited =
                joins s.world w w₂ sent
                  (wait_foreground-Then E Then F.follows fuel running w (result, w₂) e) in
              ground (arith, joins s.world w₂ (E.release l w₂).1 waited (F.release_then g w₂))
        ]
      ]

  ready_and_publish-Then :
      (fuel : ℕ) (processes : Dict ProcessConfig) (running : List String) (s : Session E)
      (r : Error × Bool × Session E)
      → ready_and_publish E fuel processes p l running s ≡ some r
      → Then s.world r.2.world
  unfolding ready_and_publish
  ready_and_publish-Then fuel processes running s r h =
      elim (Option-cases (wait_for_readiness E fuel processes running s.world)) [
        | inl waits ↦ absurd (ground arith)
        | inr ((err, w), e) ↦
            let waited =
              wait_for_readiness-Then E Then F.follows fuel processes running s.world (err, w) e in
            let s₁ : Session E = record s { world = w } in
            ground (
              arith,
              waited,
              joins s.world w r.2.world waited,
              publish_and_wait-Then fuel running s₁ r,
            )
      ]

  with_processes-Then :
      (fuel : ℕ) (processes : Dict ProcessConfig) (s : Session E) (r : Error × Bool × Session E)
      → with_processes E fuel processes p l s ≡ some r
      → Then s.world r.2.world
  unfolding with_processes
  with_processes-Then fuel processes s r h =
      let (err, running, w) = start_processes E processes s.world in
      let s₁ : Session E = note E starts w s in
      let started = start_processes-Then E Then F.follows processes s.world in
      elim (Bool-cases (is_nil err)) [
        | inr bad ↦ ground (arith, started)
        | inl ok ↦ elim (Option-cases (ready_and_publish E fuel processes p l running s₁)) [
          | inl waits ↦ absurd (ground arith)
          | inr (q, e) ↦
              let v = q.2.world in
              let ended = terminate_processes E running v in
              let worked =
                joins s.world w v started (ready_and_publish-Then fuel processes running s₁ q e) in
              ground (
                arith,
                joins s.world v ended worked (terminate_processes-Then E Then F.follows running v),
              )
        ]
      ]

  pub with_compose-Then :
      (fuel : ℕ) (s : Session E) (r : Error × Bool × Session E)
      → with_compose E fuel plan g s ≡ some r
      → Then s.world r.2.world
  unfolding with_compose
  with_compose-Then fuel s r h =
      let inner : Session E → Outcome E = with_processes E fuel plan.config.processes p l in
      let request =
        compose_request plan.project_dir plan.config plan.session_id
          (cleanup_timeout_or_default plan.cleanup_timeout) in
      let (err, w) = E.compose_start request s.world in
      let s₁ : Session E = note E composes w s in
      let composed = F.follows.compose_start_then request s.world in
      elim (Bool-cases (enabled plan.config.compose)) [
        | inr off ↦ with_processes-Then fuel plan.config.processes s r (ground arith)
        | inl on ↦ elim (Bool-cases (is_nil err)) [
          | inr bad ↦ ground (arith, composed)
          | inl ok ↦ elim (Option-cases (inner s₁)) [
            | inl waits ↦ absurd (ground arith)
            | inr (q, e) ↦
                let v = q.2.world in
                let worked =
                  joins s.world w v composed
                    (with_processes-Then fuel plan.config.processes s₁ q e) in
                ground (
                  arith,
                  joins s.world v (E.compose_stop v).1 worked (F.follows.compose_stop_then v),
                )
          ]
        ]
      ]

  release_unless-Then :
      (q : Error × Bool × Session E) → Then q.2.world (release_unless E l q).1.world
  unfolding release_claim
  release_unless-Then (err, true, s) = F.follows.stays s.world
  release_unless-Then (err, false, s) = F.release_then g s.world

module _ (E : Environment) (plan : Plan) (Then : E.World → E.World → Type 0)
    (F : Leaves E plan Then) where
  -- A run that returns follows the relation.
  pub run_plan-Then :
      (fuel : ℕ) (w : E.World) (r : Error × Session E)
      → run_plan E fuel plan w ≡ some r
      → Then w r.1.world
  unfolding run_plan
  run_plan-Then fuel w r h =
      let (g, err, w₁) = E.claim (claim_of plan) w in
      let s : Session E = note E claims w₁ (record { world = w; trace = [] }) in
      let claimed = F.claim_then w in
      elim (Bool-cases (is_nil err)) [
        | inr refused ↦ ground (arith, claimed)
        | inl granted ↦ elim (Option-cases (with_compose E fuel plan g s)) [
          | inl waits ↦ absurd (ground arith)
          | inr (q, e) ↦
              let v = q.2.world in
              let worked =
                F.follows.joins w w₁ v claimed (with_compose-Then E plan Then F g fuel s q e) in
              let last = (release_unless E (release_of plan g) q).1.world in
              ground
                (arith, F.follows.joins w v last worked (release_unless-Then E plan Then F g q))
        ]
      ]
