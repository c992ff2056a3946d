-- ===== src/Daemon/Interleaving.antt =====
-- The daemon under concurrent requests: each critical section of the mutex is one step, and a release
-- gives the mutex up twice. What other requests do in between cannot touch the host that is released.
pub mod Safety
use zerobased.Base.{
  ℕ, String, ◌≡◌, ◌≢◌, refl, Bool, true, false, not, ◌⊎◌, inl, inr, Option, none, some, List, [],
  ◌∷◌, arith, ◌==◌, string_eq, if◌then◌else◌, Option-cases, Bool-cases,
}
use zerobased.Base.Dict
use zerobased.Base.Dict.{Dict}
use zerobased.Base.Text.{Unicode}
use zerobased.Controlplane.{Claim, Publication, Release}
use zerobased.Zberr.Errors.{Error, is_nil}
use zerobased.Daemon.Runtime.{RouteRuntime}
use zerobased.Daemon.Server.{
  ApiServer, ClaimRecord, init, matches_release, new_record, next_generation, canonical_host,
  claim_host, handle_claim,
}
use zerobased.Daemon.Handlers.{
  Daemon, Request, active_claim, set_record, begin_release, abort_release, finish_release,
  publish_routes, withdraw,
}

-- A release between its first critical section and its last: the record that the handler holds, and
-- the runtime's answer once it is there.
pub record Pending : Type 0 where
  pub release : Release
  pub held : ClaimRecord
  pub answer : Option Error

module _ (R : RouteRuntime) where
  pub record System : Type 0 where
    pub daemon : Daemon R
    -- by host: `begin_release` lets one in for a host, see `Step-IsSafe`
    pub pending : Dict Pending

  abbrev pub claims_of : System → Dict ClaimRecord
  claims_of c = c.daemon.server.claims

-- The last critical section that the answer leads to.
abbrev pub end_release : Pending → Error → ApiServer → ApiServer
end_release p err s = if is_nil err then finish_release p.release s else abort_release p.release s

module _ ⦃t : Unicode⦄ (R : RouteRuntime) where
  abbrev pub with_server : System R → ApiServer → System R
  with_server c s = record c { daemon = record c.daemon { server = s } }

  -- The system after the runtime's answer to a pending release.
  abbrev pub answered : System R → String → Pending → System R
  answered c host p =
      let done = withdraw R p.held c.daemon.configured c.daemon.runtime in
      record {
        daemon = record c.daemon { runtime = done.1 };
        pending = Dict.insert host (record p { answer = some done.0 }) c.pending;
      }

  abbrev pub begun : System R → Release → ClaimRecord → System R
  begun c l r = record {
    daemon = record c.daemon { server = (begin_release l c.daemon.server).1 };
    pending = Dict.insert l.host (record { release = l; held = r; answer = none }) c.pending;
  }

  abbrev pub ended : System R → String → Pending → Error → System R
  ended c host p err = record {
    daemon = record c.daemon { server = end_release p err c.daemon.server };
    pending = Dict.erase host c.pending;
  }

  pub data Step (c : System R) : System R → Type 0 where
    takes_claim :
        (body : Option Claim) (token : String)
        → Step c (with_server c (handle_claim body token c.daemon.server).1)
    takes_publication :
        (p : Publication) → Step c (record c { daemon = (publish_routes R p c.daemon).1 })
    begins :
        (l : Release) (r : ClaimRecord)
        → (begin_release l c.daemon.server).0 ≡ some r
        → Step c (begun c l r)
    answers :
        (host : String) (p : Pending)
        → Dict.lookup host c.pending ≡ some p
        → p.answer ≡ none
        → Step c (answered c host p)
    ends :
        (host : String) (p : Pending) (err : Error)
        → Dict.lookup host c.pending ≡ some p
        → p.answer ≡ some err
        → Step c (ended c host p err)

  pub data Reach (c : System R) : System R → Type 0 where
    here : Reach c c
    next : {d e : System R} → Reach c d → Step d e → Reach c e
