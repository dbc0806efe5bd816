-- ===== src/Closure/History/Reconcile.antt =====
-- apps/closure-api/src/service.ts: `reconcile` as a history of the authorizations and
-- the proofs.
use agentic_bank.Common.{
  ℕ, refl, inl, inr, Bool, Option, none, some, String, includes, find, Bool-cases, Option-cases,
}
use agentic_bank.Protocol.State.{protocol_state_eq}
use agentic_bank.Closure.Types.{AuthorizationRow, ReconciliationJob, ClosureDb}
use agentic_bank.Closure.Repository.{get_authorization, get_proof_by_decision}
use agentic_bank.Closure.Repository.Jobs.{
  backoff_found, job_by_id, get_job_by_decision, backoff_job, complete_job,
}
use agentic_bank.Closure.Approve.{intended_states}
use agentic_bank.Closure.Service.{ServiceHost, ServiceResult, answered, failed, thrown}
use agentic_bank.Closure.Service.Holds.{observed_now-holds, at_time}
use agentic_bank.Closure.Reconcile.{
  ClosureExecutor, reconcile_unknown, complete_after, reconcile_intended, reconcile_observed,
  reconcile, closure_key,
}
use agentic_bank.Closure.History.{elsewhere, ClosureReach, next}
use agentic_bank.Closure.History.Tables.{finish_posted_commit-Reach}

module _ (host : ServiceHost) (executor : ClosureExecutor) {quiet : Bool} {start : ClosureDb} where
  backoff_found-Reach :
      {db : ClosureDb} (job_id error : String) (now : ℕ) (o : Option ReconciliationJob)
      → ClosureReach quiet start db
      → ClosureReach quiet start (backoff_found db job_id now error o).1
  backoff_found-Reach job_id error now none r = r
  backoff_found-Reach job_id error now (some row) r = next r (elsewhere refl refl) (λ _. refl)

  reconcile_unknown-Reach :
      {db : ClosureDb} (decision_id : String) (job : Option ReconciliationJob) (now : ℕ)
      → ClosureReach quiet start db
      → ClosureReach quiet start (reconcile_unknown host executor db decision_id job now).1
  unfolding reconcile_unknown backoff_job
  reconcile_unknown-Reach decision_id none now r = r
  reconcile_unknown-Reach {db} decision_id (some job) now r =
      backoff_found-Reach job.job_id "EXECUTION_UNKNOWN" now (find (job_by_id job.job_id) db.jobs) r

  complete_after-Reach :
      (job : Option ReconciliationJob) (answer : ServiceResult × ClosureDb)
      → ClosureReach quiet start answer.1
      → ClosureReach quiet start (complete_after host executor job answer).1
  unfolding complete_job
  complete_after-Reach none answer r = r
  complete_after-Reach (some job) (thrown, db) r = r
  complete_after-Reach (some job) (answered s b v, db) r = next r (elsewhere refl refl) (λ _. refl)
  complete_after-Reach (some job) (failed s code, db) r = next r (elsewhere refl refl) (λ _. refl)

  reconcile_intended-Reach :
      {db : ClosureDb} (row : AuthorizationRow) (decision_id : String) (now : ℕ)
      → ClosureReach quiet start db
      → ClosureReach quiet start (reconcile_intended host executor db row decision_id now).1
  unfolding reconcile_intended
  reconcile_intended-Reach {db} row decision_id now r =
      elim (Bool-cases (includes intended_states row.state)) [
        | inr other ↦ rw other r
        | inl intended ↦ elim (Option-cases row.stored.capsule) [
          | inl bare ↦ rw (intended, bare) r
          | inr (capsule, has) ↦
              elim (Option-cases (executor.lookup db.core (closure_key capsule))) [
                | inl absent ↦
                    rw (intended, has, absent)
                      (reconcile_unknown-Reach decision_id (get_job_by_decision db decision_id) now
                        r)
                | inr (transfer, posted) ↦
                    rw (intended, has, posted)
                      (complete_after-Reach (get_job_by_decision db decision_id) _ (
                        finish_posted_commit-Reach host decision_id row.stored
                          transfer.ledger_sequence now none r))
              ]
        ]
      ]

  reconcile_observed-Reach :
      (db : ClosureDb) (decision_id : String) (now : ℕ)
      → ClosureReach quiet start db
      → ClosureReach quiet start (reconcile_observed host executor db decision_id now).1
  unfolding reconcile_observed
  reconcile_observed-Reach db decision_id now r =
      elim (Option-cases (get_proof_by_decision db decision_id)) [
        | inr (proof, known) ↦ rw (reconcile_observed, known) r
        | inl open_ ↦ elim (Option-cases (get_authorization db decision_id)) [
          | inl missing ↦ rw (reconcile_observed, open_, missing) r
          | inr (row, there) ↦
              rw (reconcile_observed, open_, there) (reconcile_intended-Reach row decision_id now r)
        ]
      ]

  pub reconcile-Reach :
      {db : ClosureDb} (decision_id : String)
      → ClosureReach quiet start db
      → ClosureReach quiet start (reconcile host executor db decision_id).1
  unfolding reconcile
  reconcile-Reach {db} decision_id r =
      observed_now-holds (λ d. ClosureReach quiet start d) host db
        (λ now observed. reconcile_observed host executor observed decision_id now)
        (λ t. next r (elsewhere refl refl) (λ _. refl))
        (λ t now.
          reconcile_observed-Reach (at_time t db) decision_id now
            (next r (elsewhere refl refl) (λ _. refl)))
