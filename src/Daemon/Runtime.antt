-- ===== src/Daemon/Runtime.antt =====
-- internal/daemon/start.go: the interface of a route runtime, over a state of its own.
use zerobased.Controlplane.{Publication}
use zerobased.Zberr.Errors.{Error}

pub record RouteRuntime : Type 1 where
  pub State : Type 0
  pub publish : Publication → State → Error × State
  pub unpublish : Publication → State → Error × State
