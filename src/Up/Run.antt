-- ===== src/Up/Run.antt =====
-- internal/up/runner.go: `Run` from the loaded configuration on. Its deferred calls run in the reverse
-- of their order when it returns, so that each level below hands its result to the clean-up of the level
-- around it. The trace is the list of the calls to the outside, in their order.
pub mod Cleanup
pub mod Watching
pub mod Handing
pub mod Releasing
pub mod Returning
pub mod Leaving
use zerobased.Base.{
  ℕ, String, ◌<>◌, Bool, true, false, not, Option, none, some, List, [], ◌∷◌, ◌++◌, ℤ, pos, int_eq,
  ◌==◌, if◌then◌else◌,
}
use zerobased.Base.Dict.{Dict}
use zerobased.Controlplane.{Route, Claim, ClaimReceipt, Publication, Release}
use zerobased.Zberr.Layer
use zerobased.Zberr.Code
use zerobased.Zberr.Errors.{Error, nil, plain, wrap, is_nil, caused, critical, is, text}
use zerobased.Up.Config.{ConfigFile, ProcessConfig, enabled, route_claims}
use zerobased.Up.Environment.{Environment, Request}
use zerobased.Up.Processes.{
  start_processes, terminate_processes, wait_for_readiness, wait_foreground,
}

pub data Event : Type 0 where
  claims composes starts publishes releases terminates decomposes : Event

-- 30 * time.Second, 60 * time.Second
abbrev pub default_cleanup_timeout : ℤ
default_cleanup_timeout = pos 30_000_000_000

abbrev pub default_readiness_timeout : ℤ
default_readiness_timeout = pos 60_000_000_000

unfoldable pub cleanup_timeout_or_default : ℤ → ℤ
cleanup_timeout_or_default timeout = if timeout == pos 0 then default_cleanup_timeout else timeout

unfoldable pub readiness_timeout_or_default : ℤ → ℤ
readiness_timeout_or_default timeout =
    if timeout == pos 0 then default_readiness_timeout else timeout

unfoldable pub compose_request : String → ConfigFile → String → ℤ → Request
compose_request dir c session_id timeout = record {
  project_dir = dir;
  stack_name = c.name;
  profile = c.profile;
  session_id = session_id;
  files = c.compose.files;
  compose_profiles = c.compose.profiles;
  services = c.compose.services;
  ownership = c.compose.ownership;
  rollback_timeout = timeout;
}

unfoldable pub map_compose_start_error : Error → Error
map_compose_start_error err =
    if is err Layer.compose_backend Code.model_invalid
    then caused Layer.stack_orchestrator Code.preflight_rejected err
    else if is err Layer.compose_backend Code.isolation_rejected
    then caused Layer.stack_orchestrator Code.preflight_rejected err
    else if is err Layer.compose_backend Code.lifecycle_failed
    then caused Layer.stack_orchestrator Code.dependency_start_failed err
    else critical Layer.stack_orchestrator err []

-- The error of a clean-up that fails, which keeps the text of the error before it.
unfoldable pub cleanup_failed : Error → Error → Error
cleanup_failed failure primary = caused Layer.stack_orchestrator Code.cleanup_failed (
    if is_nil primary
    then failure
    else wrap (text failure <> ("; primary error: " <> text primary)) failure)

abbrev pub after_cleanup : Error → Error → Error
after_cleanup failure primary = if is_nil failure then primary else cleanup_failed failure primary

-- What the run has put together before its claim.
pub record Plan : Type 0 where
  pub config : ConfigFile
  pub project_dir : String
  pub session_id : String
  pub cleanup_timeout : ℤ

module _ (p : Plan) where
  abbrev pub claim_of : Claim
  claim_of = record {
    name = p.config.name;
    host = p.config.host;
    project_dir = p.project_dir;
    session_id = p.session_id;
    routes = route_claims p.config.routes;
  }

  abbrev pub release_of : ClaimReceipt → Release
  release_of receipt = record {
    name = p.config.name;
    host = p.config.host;
    project_dir = p.project_dir;
    session_id = p.session_id;
    claim_token = receipt.token;
    generation = receipt.generation;
  }

  abbrev pub publication_of : ClaimReceipt → Publication
  publication_of receipt = record {
    name = p.config.name;
    host = p.config.host;
    project_dir = p.project_dir;
    session_id = p.session_id;
    routes = route_claims p.config.routes;
    claim_token = receipt.token;
    generation = receipt.generation;
  }

module _ (E : Environment) where
  pub record Session : Type 0 where
    pub world : E.World
    pub trace : List Event

  -- The session after a call to the outside.
  abbrev pub note : Event → E.World → Session → Session
  note event w s = record { world = w; trace = s.trace ++ event ∷ [] }

  abbrev at : E.World → Session → Session
  at w s = record s { world = w }

  -- The result, whether the routes were published, and the session. `none`: a loop still waits.
  abbrev pub Outcome : Type 0
  Outcome = Option (Error × Bool × Session)

  -- `releaseClaim`
  unfoldable pub release_claim : Release → Error → Session → Error × Session
  release_claim release primary s =
      let (failure, w) = E.release release s.world in
      (after_cleanup failure primary, note releases w s)

  unfoldable pub publish_and_wait : ℕ → Publication → Release → List String → Session → Outcome
  publish_and_wait fuel publication release running s =
      let (err, w) = E.publish publication s.world in
      let s₁ = note publishes w s in
      if not (is_nil err)
      then some (caused Layer.stack_orchestrator Code.generation_commit_failed err, false, s₁)
      else elim (wait_foreground E fuel running w) [
        | none ↦ none
        | some (result, w₂) ↦
            let (final, s₂) = release_claim release result (at w₂ s₁) in some (final, true, s₂)
      ]

  -- From the processes that run on to the publication.
  unfoldable pub ready_and_publish :
      ℕ → Dict ProcessConfig → Publication → Release → List String → Session → Outcome
  ready_and_publish fuel processes publication release running s =
      elim (wait_for_readiness E fuel processes running s.world) [
        | none ↦ none
        | some (err, w) ↦
            let s₁ = at w s in
            if E.is_canceled w
            then some (nil, false, s₁)
            else if not (is_nil err)
            then some (err, false, s₁)
            else publish_and_wait fuel publication release running s₁
      ]

  abbrev clean_processes : List String → Error × Bool × Session → Error × Bool × Session
  clean_processes running (err, published, s) =
      (err, published, note terminates (terminate_processes E running s.world) s)

  unfoldable pub with_processes : ℕ → Dict ProcessConfig → Publication → Release → Session → Outcome
  with_processes fuel processes publication release s =
      let (err, running, w) = start_processes E processes s.world in
      let s₁ = note starts w s in
      if not (is_nil err)
      then some (if E.is_canceled w then nil else err, false, s₁)
      else elim (ready_and_publish fuel processes publication release running s₁) [
        | none ↦ none
        | some result ↦ some (clean_processes running result)
      ]

  abbrev stop_compose : Error × Bool × Session → Error × Bool × Session
  stop_compose (err, published, s) =
      let (failure, w) = E.compose_stop s.world in
      (after_cleanup failure err, published, note decomposes w s)

  unfoldable pub with_compose : ℕ → Plan → ClaimReceipt → Session → Outcome
  with_compose fuel p receipt s =
      let inner =
        with_processes fuel p.config.processes (publication_of p receipt) (release_of p receipt) in
      if not (enabled p.config.compose)
      then inner s
      else let (err, w) =
          E.compose_start
            (compose_request p.project_dir p.config p.session_id
              (cleanup_timeout_or_default p.cleanup_timeout))
            s.world in
        let s₁ = note composes w s in
        if not (is_nil err)
        then some (map_compose_start_error err, false, s₁)
        else elim (inner s₁) [ none ↦ none | some result ↦ some (stop_compose result) ]

  abbrev release_unless : Release → Error × Bool × Session → Error × Session
  release_unless release (err, true, s) = (err, s)
  release_unless release (err, false, s) = release_claim release err s

  -- `Run` from its claim on, in a session with no calls yet.
  unfoldable pub run_plan : ℕ → Plan → E.World → Option (Error × Session)
  run_plan fuel p w =
      let (receipt, err, w₁) = E.claim (claim_of p) w in
      let s = note claims w₁ (record { world = w; trace = [] }) in
      if not (is_nil err)
      then some (caused Layer.stack_orchestrator Code.claim_rejected err, s)
      else elim (with_compose fuel p receipt s) [
        | none ↦ none
        | some result ↦ some (release_unless (release_of p receipt) result)
      ]
