-- ===== src/Closure/Reconcile.antt =====
-- apps/closure-api/src/service.ts: `reconcile`, over the executor of
-- executor.ts as an interface: a transfer that is executed and one that is looked up, by its key.
use agentic_bank.Common.{
  ℤ, ℕ, false, not, Option, none, some, String, if◌then◌else◌, string_eq, includes,
}
use Prim.Native.String.{◌++◌ as ◌<>◌}
use agentic_bank.Store.{Db}
use agentic_bank.Store.Types.{account_status_eq}
use agentic_bank.Protocol.State.{protocol_state_eq}
use agentic_bank.Closure.Types.{
  AuthorizationRow, ExecutionCapsule, ReconciliationJob, proof_value, unknown_value, ClosureDb,
}
use agentic_bank.Closure.Repository.{get_authorization, get_proof_by_decision}
use agentic_bank.Closure.Repository.Jobs.{complete_job, backoff_job, get_job_by_decision}
use agentic_bank.Closure.Service.{
  ServiceHost, ServiceResult, answered, failed, thrown, observed_now, finish_posted_commit,
}
use agentic_bank.Closure.Approve.{intended_states}

pub record TransferInput : Type 0 where
  pub customer_id : String
  pub from_account_id : String
  pub to_account_id : String
  pub amount : ℕ
  pub idempotency_key : String

pub record ExecutedTransfer : Type 0 where
  pub journal_id : String
  pub ledger_sequence : ℕ
  pub from_account_id : String
  pub to_account_id : String
  pub amount : ℤ

-- What a call of the executor comes to: a posted transfer, no result in time, or an error.
pub data Execution : Type 0 where
  executed : ExecutedTransfer → Execution
  timed_out : Execution
  refused : Execution

pub record ClosureExecutor : Type 0 where
  pub execute : Db → TransferInput → Execution × Db
  pub lookup : Db → String → Option ExecutedTransfer

abbrev pub closure_key : ExecutionCapsule → String
closure_key capsule = "closure:" <> capsule.capsule_id

module _ (host : ServiceHost) (executor : ClosureExecutor) where
  -- A lookup that finds nothing puts the job off.
  unfoldable pub reconcile_unknown :
      ClosureDb → String → Option ReconciliationJob → ℕ → ServiceResult × ClosureDb
  reconcile_unknown db decision_id none now =
      (answered 202 false (unknown_value decision_id ("job-" <> decision_id)), db)
  reconcile_unknown db decision_id (some job) now = (
    answered 202 false (unknown_value decision_id job.job_id),
    (backoff_job db job.job_id now "EXECUTION_UNKNOWN").1,
  )

  -- A thrown error skips the job.
  abbrev pub complete_after :
      Option ReconciliationJob → ServiceResult × ClosureDb → ServiceResult × ClosureDb
  complete_after none answer = answer
  complete_after (some job) (thrown, db) = (thrown, db)
  complete_after (some job) (answered s r v, db) = (answered s r v, complete_job db job.job_id)
  complete_after (some job) (failed s code, db) = (failed s code, complete_job db job.job_id)

  unfoldable pub reconcile_intended :
      ClosureDb → AuthorizationRow → String → ℕ → ServiceResult × ClosureDb
  unfolding reconcile_unknown
  reconcile_intended db row decision_id now =
      if not (includes intended_states row.state)
      then (failed 422 "NOT_RECONCILABLE", db)
      else elim row.stored.capsule [
        | none ↦ (failed 422 "DECISION_NOT_ALLOWED", db)
        | some capsule ↦
            let job = get_job_by_decision db decision_id in
            elim (executor.lookup db.core (closure_key capsule)) [
              | none ↦ reconcile_unknown db decision_id job now
              | some transfer ↦ complete_after job (
                  finish_posted_commit host db decision_id row.stored transfer.ledger_sequence now
                    none)
            ]
      ]

  unfoldable pub reconcile_observed : ClosureDb → String → ℕ → ServiceResult × ClosureDb
  unfolding reconcile_intended
  reconcile_observed db decision_id now = elim (get_proof_by_decision db decision_id) [
    | some proof ↦ (answered 200 false (proof_value proof.proof_id proof), db)
    | none ↦ elim (get_authorization db decision_id) [
      | none ↦ (failed 404 "AUTHORIZATION_NOT_FOUND", db)
      | some row ↦ reconcile_intended db row decision_id now
    ]
  ]

  unfoldable pub reconcile : ClosureDb → String → ServiceResult × ClosureDb
  unfolding reconcile_observed
  reconcile db decision_id =
      observed_now host db (λ now observed. reconcile_observed observed decision_id now)
