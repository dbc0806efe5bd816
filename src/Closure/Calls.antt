-- ===== src/Closure/Calls.antt =====
-- apps/closure-api/src/service.ts: the calls of the service one after another, beside whatever else
-- changes the tables of the core.
pub mod Once
pub mod Refinement
use agentic_bank.Common.{Bool, true, false, ℕ, ◌≡◌, Option, String, refl}
use mathlib.Core.Path.{subst}
use agentic_bank.Store.{Db}
use agentic_bank.Store.Args.{Json}
use agentic_bank.Closure.Types.{ClosureDb}
use agentic_bank.Closure.Service.{ServiceHost, failed}
use agentic_bank.Closure.Authorize.{authorize}
use agentic_bank.Closure.Register.{register_mandate}
use agentic_bank.Closure.Approve.{approve, revoke_mandate}
use agentic_bank.Closure.Commit.{commit, commit_intended, execute_intended}
use agentic_bank.Closure.Reconcile.{ClosureExecutor, reconcile}
use agentic_bank.Closure.History.{
  ClosureReach, here, next, elsewhere, append_reach, from_quiet, IsSound, ClosureReach-IsSound,
  IsSpent, ClosureReach-IsSpent,
}
use agentic_bank.Closure.History.Authorize.{authorize-Reach}
use agentic_bank.Closure.History.Register.{register_mandate-Reach}
use agentic_bank.Closure.History.Approve.{approve-Reach}
use agentic_bank.Closure.History.Revoke.{revoke_mandate-Reach}
use agentic_bank.Closure.History.Commit.{record_intent-holds, execute_intended-Reach}
use agentic_bank.Closure.History.Reconcile.{reconcile-Reach}
use agentic_bank.Closure.Worker.{run_reconciliation_worker}
use agentic_bank.Closure.History.Worker.{run_reconciliation_worker-Reach}
use agentic_bank.Closure.History.Cases.{commit-holds}

-- A call with any host, a run of the worker, or a change of the core's tables.
pub data ServiceStep (executor : ClosureExecutor) (db : ClosureDb) : ClosureDb → Type 0 where
  registers :
      (host : ServiceHost) (key : Option String) (customer from to max_amount agent : Json)
      → ServiceStep executor db (register_mandate host db key customer from to max_amount agent).1
  authorizes :
      (host : ServiceHost) (mandate_id : String) (key : Option String) (amount : Json)
      → ServiceStep executor db (authorize host db mandate_id key amount).1
  approves :
      (host : ServiceHost) (decision_id : String) (key approver_id : Option String)
      → ServiceStep executor db (approve host db decision_id key approver_id).1
  revokes :
      (host : ServiceHost) (proof_uuids : ℕ → String) (mandate_id : String) (key : Option String)
      → ServiceStep executor db (revoke_mandate host proof_uuids db mandate_id key).1
  commits :
      (host : ServiceHost) (decision_id : String) (key : Option String)
      → ServiceStep executor db (commit host executor db decision_id key).1
  reconciles :
      (host : ServiceHost) (decision_id : String)
      → ServiceStep executor db (reconcile host executor db decision_id).1
  works :
      (hosts : ℕ → ServiceHost) (limit : ℕ)
      → ServiceStep executor db (run_reconciliation_worker hosts executor db limit).1
  core_changes : (core : Db) → ServiceStep executor db (record db { core = core })

pub data ServiceReach (executor : ClosureExecutor) (db : ClosureDb) : ClosureDb → Type 0 where
  idle : ServiceReach executor db db
  then_ :
      {middle after : ClosureDb}
      → ServiceReach executor db middle
      → ServiceStep executor middle after
      → ServiceReach executor db after

-- A commit is a history.
pub commit-Reach :
    (host : ServiceHost) (executor : ClosureExecutor) (db : ClosureDb) (decision_id : String)
    (key : Option String)
    → IsSound db
    → ClosureReach false db (commit host executor db decision_id key).1
unfolding commit_intended
commit-Reach host executor db decision_id key sound =
    commit-holds host executor db decision_id (λ d. ClosureReach false db d) (λ d r. from_quiet r)
      (λ row d r there on_path is_open capsule k hash now.
        record_intent-holds host executor (λ x. ClosureReach false db x) row decision_id capsule now
          (λ code. (failed 409 code, d))
          (execute_intended host executor row decision_id capsule k hash now) (from_quiet r)
          (λ code. from_quiet r)
          (λ moved e q.
            execute_intended-Reach host executor row decision_id on_path is_open capsule k hash now
              (next q (elsewhere refl refl) (λ x. absurd (cc x)))))
      key sound

module _ {executor : ClosureExecutor} where
  ServiceStep-Reach :
      {db after : ClosureDb}
      → ServiceStep executor db after
      → IsSound db
      → ClosureReach false db after
  ServiceStep-Reach {db} (registers host key customer from to max_amount agent) s =
      register_mandate-Reach host db key customer from to max_amount agent
  ServiceStep-Reach {db} (authorizes host mandate_id key amount) s =
      authorize-Reach host db mandate_id key amount
  ServiceStep-Reach {db} (approves host decision_id key approver_id) s =
      approve-Reach host db decision_id key approver_id s
  ServiceStep-Reach {db} (revokes host proof_uuids mandate_id key) s =
      revoke_mandate-Reach host proof_uuids db mandate_id key s
  ServiceStep-Reach {db} (commits host decision_id key) s =
      commit-Reach host executor db decision_id key s
  ServiceStep-Reach (reconciles host decision_id) s = reconcile-Reach host executor decision_id here
  ServiceStep-Reach {db} (works hosts limit) s =
      run_reconciliation_worker-Reach hosts executor db limit
  ServiceStep-Reach (core_changes core) s = next here (elsewhere refl refl) (λ x. absurd (cc x))

  pub ServiceReach-Reach :
      {db after : ClosureDb}
      → ServiceReach executor db after
      → IsSound db
      → ClosureReach false db after
  ServiceReach-Reach idle s = here
  ServiceReach-Reach (then_ r step) s =
      let before = ServiceReach-Reach r s in
      append_reach before (ServiceStep-Reach step (ClosureReach-IsSound before s))

  -- Over every history of calls of the service and runs of its worker from a sound state every stored proof shows a state
  -- path that the protocol accepts for its kind, and every open authorization the path of its state.
  pub ServiceReach-IsSound :
      {db after : ClosureDb} → IsSound db → ServiceReach executor db after → IsSound after
  ServiceReach-IsSound s r = ClosureReach-IsSound (ServiceReach-Reach r s) s
