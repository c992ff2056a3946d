-- ===== src/Controlplane.antt =====
-- internal/controlplane/types.go: the messages between a project's run and the daemon.
pub mod Client
use zerobased.Base.{ℕ, String, List, ℤ}

pub record Route : Type 0 where
  pub path : String
  pub process : String
  pub port : ℤ

pub record Claim : Type 0 where
  pub name : String
  pub host : String
  pub project_dir : String
  pub session_id : String
  pub routes : List Route

-- A generation is an int64, given by its bit pattern, a number below 2 ^ 64.
pub record ClaimReceipt : Type 0 where
  pub token : String
  pub generation : ℕ

pub record Publication : Type 0 where
  pub name : String
  pub host : String
  pub project_dir : String
  pub session_id : String
  pub routes : List Route
  pub claim_token : String
  pub generation : ℕ

pub record Release : Type 0 where
  pub name : String
  pub host : String
  pub project_dir : String
  pub session_id : String
  pub claim_token : String
  pub generation : ℕ

pub record ErrorResponse : Type 0 where
  pub layer : String
  pub code : String
  pub owner : String
  pub message : String
