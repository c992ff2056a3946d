-- ===== src/Up/Environment.antt =====
-- What a run calls: the control plane, the compose backend, processes, files and the clock, over a state
-- of the world. A process is known by its name.
use zerobased.Base.{String, Bool, Option, List, ℤ}
use zerobased.Controlplane.{Claim, ClaimReceipt, Publication, Release}
use zerobased.Zberr.Errors.{Error}
use zerobased.Up.Config.{ProcessConfig}

-- composebackend.Request
pub record Request : Type 0 where
  pub project_dir : String
  pub stack_name : String
  pub profile : String
  pub session_id : String
  pub files : List String
  pub compose_profiles : List String
  pub services : List String
  pub ownership : String
  -- nanoseconds
  pub rollback_timeout : ℤ

pub data Signal : Type 0 where
  sigterm sigkill : Signal

-- What a `select` of the readiness loop answers.
pub data Wake : Type 0 where
  canceled deadline tick : Wake

pub record Environment : Type 1 where
  pub World : Type 0
  pub claim : Claim → World → ClaimReceipt × Error × World
  pub publish : Publication → World → Error × World
  pub release : Release → World → Error × World
  pub compose_start : Request → World → Error × World
  pub compose_stop : World → Error × World
  -- cmd.Start, syscall.Kill of the process group, and the process's `done` channel: within 200 ms,
  -- and polled
  pub start_process : String → ProcessConfig → World → Error × World
  pub kill : String → Signal → World → World
  pub await_exit : String → World → Bool × World
  pub poll_exit : String → World → Option Error × World
  pub stat : String → World → Error × World
  -- ctx.Err() != nil
  pub is_canceled : World → Bool
  pub readiness_select : World → Wake × World
  -- whether ctx.Done() came before the 20 ms
  pub foreground_select : World → Bool × World
