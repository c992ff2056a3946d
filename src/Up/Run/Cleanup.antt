-- ===== src/Up/Run/Cleanup.antt =====
-- internal/up/runner.go: the calls of a run that returns, in their order.
use mathlib.Core.List.{append_assoc, append-nil}
use zerobased.Base.{
  String, ℕ, ◌≡◌, refl, sym, ◌∙◌, ap, ◌⊎◌, inl, inr, Bool, true, false, some, List, [], ◌∷◌, ◌++◌,
  arith, Bool-cases, Option-cases,
}
use zerobased.Base.Dict.{Dict}
use zerobased.Controlplane.{ClaimReceipt, Publication, Release}
use zerobased.Zberr.Errors.{Error, is_nil}
use zerobased.Up.Config.{ProcessConfig, enabled}
use zerobased.Up.Environment.{Environment}
use zerobased.Up.Processes.{start_processes, wait_for_readiness}
use zerobased.Up.Run.{
  Event, claims, composes, starts, publishes, releases, terminates, decomposes, Plan, Session,
  publication_of, release_of, compose_request, cleanup_timeout_or_default, Outcome, note, claim_of,
  release_claim, publish_and_wait, ready_and_publish, with_processes, with_compose, run_plan,
  release_unless,
}

-- How far a run came, with its claim granted and the compose stack up.
pub data Progress : Type 0 where
  not_started not_ready not_published published : Progress

abbrev pub is_published : Progress → Bool
is_published published = true
is_published _ = false

-- The calls of the processes' level.
abbrev pub calls : Progress → List Event
calls not_started = starts ∷ []
calls not_ready = starts ∷ terminates ∷ []
calls not_published = starts ∷ publishes ∷ terminates ∷ []
calls published = starts ∷ publishes ∷ releases ∷ terminates ∷ []

-- The calls of the compose level around those of the processes' level.
abbrev pub around : Bool → List Event → List Event
around false inner = inner
around true inner = composes ∷ inner ++ decomposes ∷ []

-- The release at the very end, of a run that did not publish.
abbrev pub last_release : Bool → List Event
last_release true = []
last_release false = releases ∷ []

-- The calls of a run whose claim was granted or not, with a compose stack or not: the claim refused; the
-- compose stack refused; or as far as it came, with the claim released once, before the processes end
-- when the routes were published and at the very end when not.
unfoldable pub Cleaned : (granted composed : Bool) → List Event → Type 0
Cleaned granted composed trace =
    ((granted ≡ false) × (trace ≡ claims ∷ []))
    ⊎ ((granted ≡ true)
        × (((composed ≡ true) × (trace ≡ claims ∷ composes ∷ releases ∷ []))
            ⊎ ((g : Progress) × (trace
                  ≡ claims ∷ around composed (calls g) ++ last_release (is_published g)))))

then_calls :
    {later : List Event} (before earlier next : List Event)
    → later ≡ before ++ earlier
    → later ++ next ≡ before ++ (earlier ++ next)
then_calls before earlier next e =
    ap (λ (x : List Event). x ++ next) e ∙ append_assoc before earlier next

module _ (E : Environment) where
  abbrev Result : Type 0
  Result = Error × Bool × Session E

  publish_and_wait-calls :
      (fuel : ℕ) (p : Publication) (l : Release) (running : List String) (s : Session E)
      (r : Result)
      → publish_and_wait E fuel p l running s ≡ some r
      → ((r.1 ≡ false) × (r.2.trace ≡ s.trace ++ publishes ∷ []))
        ⊎ ((r.1 ≡ true) × (r.2.trace ≡ (s.trace ++ publishes ∷ []) ++ releases ∷ []))
  unfolding publish_and_wait release_claim
  publish_and_wait-calls fuel p l running s r h = ground arith

  ready_and_publish-calls :
      (fuel : ℕ) (processes : Dict ProcessConfig) (p : Publication) (l : Release)
      (running : List String) (s : Session E) (r : Result)
      → ready_and_publish E fuel processes p l running s ≡ some r
      → ((r.1 ≡ false) × ((r.2.trace ≡ s.trace) ⊎ (r.2.trace ≡ s.trace ++ publishes ∷ [])))
        ⊎ ((r.1 ≡ true) × (r.2.trace ≡ (s.trace ++ publishes ∷ []) ++ releases ∷ []))
  unfolding ready_and_publish
  ready_and_publish-calls fuel processes p l running s r h =
      elim (Option-cases (wait_for_readiness E fuel processes running s.world)) [
        | inl waits ↦ ground arith
        | inr (ready, e) ↦
            ground (arith, publish_and_wait-calls fuel p l running (record s { world = ready.1 }) r)
      ]

  -- The calls of the processes' level, and whether they published.
  abbrev Reached : Session E → Result → Type 0
  Reached s r = (g : Progress) × (r.1 ≡ is_published g) × (r.2.trace ≡ s.trace ++ calls g)

  with_processes-Reached :
      (fuel : ℕ) (processes : Dict ProcessConfig) (p : Publication) (l : Release) (s : Session E)
      (r : Result)
      → with_processes E fuel processes p l s ≡ some r
      → Reached s r
  unfolding with_processes
  with_processes-Reached fuel processes p l s r h =
      let (err, running, w) = start_processes E processes s.world in
      elim (Bool-cases (is_nil err)) [
        | inr failed ↦ (not_started, ground arith, ground arith)
        | inl started ↦
            let s₁ : Session E = note E starts w s in
            elim (Option-cases (ready_and_publish E fuel processes p l running s₁)) [
              | inl waits ↦ absurd (ground arith)
              | inr (q, e) ↦
                  let shape : r.2.trace ≡ q.2.trace ++ terminates ∷ [] = ground arith in
                  elim (ready_and_publish-calls fuel processes p l running s₁ q e) [
                    | inl (flag, inl t) ↦ (
                      not_ready,
                      ground arith,
                      shape ∙ then_calls s.trace (starts ∷ []) (terminates ∷ []) t,
                    )
                    | inl (flag, inr t) ↦ (
                      not_published,
                      ground arith,
                      shape
                          ∙ then_calls s.trace (starts ∷ publishes ∷ []) (terminates ∷ [])
                              (t ∙ append_assoc s.trace (starts ∷ []) (publishes ∷ [])),
                    )
                    | inr (flag, t) ↦ (
                      published,
                      ground arith,
                      shape
                          ∙ then_calls s.trace (starts ∷ publishes ∷ releases ∷ [])
                              (terminates ∷ [])
                              (t
                                ∙ then_calls s.trace (starts ∷ publishes ∷ []) (releases ∷ [])
                                    (append_assoc s.trace (starts ∷ []) (publishes ∷ []))),
                    )
                  ]
            ]
      ]

  with_compose-calls :
      (fuel : ℕ) (p : Plan) (receipt : ClaimReceipt) (s : Session E) (r : Result)
      → with_compose E fuel p receipt s ≡ some r
      → ((enabled p.config.compose ≡ true) × (r.1 ≡ false) × (r.2.trace ≡ s.trace ++ composes ∷ []))
        ⊎ ((g : Progress) × (r.1 ≡ is_published g)
            × (r.2.trace ≡ s.trace ++ around (enabled p.config.compose) (calls g)))
  unfolding with_compose
  with_compose-calls fuel p receipt s r h =
      let inner : Session E → Outcome E =
        with_processes E fuel p.config.processes (publication_of p receipt)
          (release_of p receipt) in
      elim (Bool-cases (enabled p.config.compose)) [
        | inr off ↦
            let same : inner s ≡ some r = ground arith in
            let (g, flag, t) =
              with_processes-Reached fuel p.config.processes (publication_of p receipt)
                (release_of p receipt) s r same in
            inr (g, flag, ground arith)
        | inl on ↦
            let request =
              compose_request p.project_dir p.config p.session_id
                (cleanup_timeout_or_default p.cleanup_timeout) in
            let (err, w) = E.compose_start request s.world in
            let s₁ : Session E = note E composes w s in
            elim (Bool-cases (is_nil err)) [
              | inr failed ↦ inl (on, ground arith, ground arith)
              | inl started ↦ elim (Option-cases (inner s₁)) [
                | inl waits ↦ absurd (ground arith)
                | inr (q, e) ↦
                    let (g, flag, t) =
                      with_processes-Reached fuel p.config.processes (publication_of p receipt)
                        (release_of p receipt) s₁ q e in
                    let shape : r.2.trace ≡ q.2.trace ++ decomposes ∷ [] = ground arith in
                    inr (
                      g,
                      ground arith,
                      shape
                          ∙ ap (λ (x : List Event). x ++ decomposes ∷ [])
                              (t ∙ append_assoc s.trace (composes ∷ []) (calls g))
                          ∙ append_assoc s.trace (composes ∷ calls g) (decomposes ∷ [])
                          ∙ ap (λ b. s.trace ++ around b (calls g)) (sym on),
                    )
              ]
            ]
      ]

  release_unless-calls :
      (l : Release) (q : Result) → (release_unless E l q).1.trace ≡ q.2.trace ++ last_release (q.1)
  unfolding release_claim
  release_unless-calls l (err, true, s) = sym (append-nil s.trace)
  release_unless-calls l (err, false, s) = refl

  -- The calls of a run that returns are: its claim alone if that was refused; the claim, the start of the
  -- compose stack and a release if that start was refused; and else, inside the compose stack's start and
  -- stop if the project has one, the processes' start and, if it succeeded, their end, with one release:
  -- between the publication and the end of the processes if the routes were published, and after
  -- everything else if not. This is so whatever the calls answer: the processes are ended and the compose
  -- stack is stopped after a release that failed, too.
  pub run_plan-Cleaned :
      (fuel : ℕ) (p : Plan) (w : E.World) (r : Error × Session E)
      → run_plan E fuel p w ≡ some r
      → Cleaned (is_nil ((E.claim (claim_of p) w).1)) (enabled p.config.compose) (r.1.trace)
  unfolding run_plan release_claim Cleaned
  run_plan-Cleaned fuel p w r h =
      let (receipt, err, w₁) = E.claim (claim_of p) w in
      let s : Session E = note E claims w₁ (record { world = w; trace = [] }) in
      elim (Bool-cases (is_nil err)) [
        | inr refused ↦ inl (refused, ground arith)
        | inl granted ↦ elim (Option-cases (with_compose E fuel p receipt s)) [
          | inl waits ↦ absurd (ground arith)
          | inr (q, e) ↦ elim (with_compose-calls fuel p receipt s q e) [
            | inl (on, flag, t) ↦
                let shape : r.1.trace ≡ q.2.trace ++ releases ∷ [] =
                  ground (arith, release_unless-calls (release_of p receipt) q) in
                inr (granted, inl (on, shape ∙ ap (λ (x : List Event). x ++ releases ∷ []) t))
            | inr (g, flag, t) ↦
                let shape : r.1.trace ≡ q.2.trace ++ last_release (is_published g) =
                  ground (arith, release_unless-calls (release_of p receipt) q) in
                inr (
                  granted,
                  inr (g, shape ∙ ap (λ (x : List Event). x ++ last_release (is_published g)) t),
                )
          ]
        ]
      ]
