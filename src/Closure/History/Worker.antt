-- ===== src/Closure/History/Worker.antt =====
-- apps/closure-api/src/service.ts: the worker as a history of the authorizations and the proofs.
use agentic_bank.Common.{
  select, ℕ, ◌+◌, refl, Bool, inl, inr, Option, none, some, List, [], ◌∷◌, String, Option-cases,
}
use agentic_bank.Closure.Types.{ReconciliationJob, ClosureDb}
use agentic_bank.Closure.Repository.{observe_clock}
use agentic_bank.Closure.Repository.Jobs.{
  claim_each, claim_due_jobs, limit_to, order_by_next_attempt, is_due,
}
use agentic_bank.Closure.Service.{ServiceHost}
use agentic_bank.Closure.Service.Holds.{observe_after-at}
use agentic_bank.Closure.Reconcile.{ClosureExecutor, reconcile}
use agentic_bank.Closure.Worker.{
  WorkerRun, counted, tallied, reconcile_each, work_observed, run_reconciliation_worker,
}
use agentic_bank.Closure.History.{ClosureReach, here, next, elsewhere}
use agentic_bank.Closure.History.Reconcile.{reconcile-Reach}

module _ (hosts : ℕ → ServiceHost) (executor : ClosureExecutor) {quiet : Bool}
    {start : ClosureDb} where
  reconcile_each-Reach :
      (jobs : List ReconciliationJob) {db : ClosureDb} (n : ℕ) (run : WorkerRun)
      → ClosureReach quiet start db
      → ClosureReach quiet start (reconcile_each hosts executor db jobs n run).1
  unfolding reconcile_each
  reconcile_each-Reach [] n run r = r
  reconcile_each-Reach (job ∷ jobs) {db} n run r =
      let answer = reconcile (hosts n) executor db job.decision_id in
      let reached = reconcile-Reach (hosts n) executor job.decision_id r in
      elim (Option-cases (tallied (counted answer.0) run)) [
        | inl stops ↦ rw (reconcile_each, stops) reached
        | inr (tally, goes) ↦
            rw (reconcile_each, goes)
              (reconcile_each-Reach jobs {db = answer.1} (n + 1) tally reached)
      ]

  claim_each-Reach :
      (due : List ReconciliationJob) {db : ClosureDb} (owner : String) (now lease : ℕ)
      → ClosureReach quiet start db
      → ClosureReach quiet start (claim_each db owner now lease due).1
  unfolding claim_each
  claim_each-Reach [] owner now lease r = r
  claim_each-Reach (job ∷ due) owner now lease r =
      claim_each-Reach due owner now lease (next r (elsewhere refl refl) (λ _. refl))

  work_observed-Reach :
      (observed : Option ℕ × ClosureDb) (limit : ℕ)
      → ClosureReach quiet start observed.1
      → ClosureReach quiet start (work_observed hosts executor observed limit).1
  unfolding claim_due_jobs
  work_observed-Reach (none, db) limit r = r
  work_observed-Reach (some now, db) limit r =
      reconcile_each-Reach (claim_due_jobs db "closure-worker-1" now 2000 limit).0 1 _ (
        claim_each-Reach (limit_to limit (order_by_next_attempt (select (is_due now) db.jobs)))
          "closure-worker-1" now 2000 r)

-- A run of the worker is a history.
pub run_reconciliation_worker-Reach :
    (hosts : ℕ → ServiceHost) (executor : ClosureExecutor) {quiet : Bool} (db : ClosureDb)
    (limit : ℕ)
    → ClosureReach quiet db (run_reconciliation_worker hosts executor db limit).1
unfolding run_reconciliation_worker observe_clock
run_reconciliation_worker-Reach hosts executor db limit =
    let (t, same) = observe_after-at db (hosts 0).now db.last_observed_ms refl in
    work_observed-Reach hosts executor (observe_clock db (hosts 0).now) limit
      (rw same (next here (elsewhere refl refl) (λ _. refl)))
