-- ===== src/Closure/Worker.antt =====
-- apps/closure-api/src/service.ts: `runReconciliationWorker`, and the methods that only read.
use agentic_bank.Common.{
  ℕ, ◌+◌, Bool, true, false, Option, none, some, List, [], ◌∷◌, String, length, leb, ◌&&◌, ◌>>=◌,
  if◌then◌else◌,
}
use agentic_bank.Protocol.State.{ProtocolState}
use agentic_bank.Closure.Types.{StoredProof, ReconciliationJob, Value, proof_value, ClosureDb}
use agentic_bank.Closure.Repository.{
  get_authorization, get_proof, get_proof_by_decision, observe_clock,
}
use agentic_bank.Closure.Repository.Jobs.{claim_due_jobs, get_job_by_decision, list_unresolved_jobs}
use agentic_bank.Closure.Service.{ServiceHost, ServiceResult, answered, failed, thrown}
use agentic_bank.Closure.Reconcile.{ClosureExecutor, reconcile}

pub record WorkerRun : Type 0 where
  pub claimed : ℕ
  pub closed_ : ℕ
  pub unknown : ℕ

pub data Counted : Type 0 where
  as_closed as_unknown as_thrown : Counted

-- `"proof_id" in result.value`
abbrev shows_proof : Value → Bool
shows_proof (proof_value _ _) = true
shows_proof _ = false

abbrev is_status : ℕ → ℕ → Bool
is_status a b = leb a b && leb b a

-- How one answer of `reconcile` counts.
unfoldable pub counted : ServiceResult → Counted
counted (failed status code) = as_unknown
counted thrown = as_thrown
counted (answered status replay value) =
    if is_status status 201
    then as_closed
    else if is_status status 202
    then as_unknown
    else if shows_proof value
    then as_closed
    else as_unknown

abbrev pub tallied : Counted → WorkerRun → Option WorkerRun
tallied as_closed run = some (record run { closed_ = run.closed_ + 1 })
tallied as_unknown run = some (record run { unknown = run.unknown + 1 })
tallied as_thrown run = none

module _ (hosts : ℕ → ServiceHost) (executor : ClosureExecutor) where
  -- The claimed jobs in turn, each with a host of its own; an error ends the run.
  unfoldable pub reconcile_each :
      ClosureDb → List ReconciliationJob → ℕ → WorkerRun → Option WorkerRun × ClosureDb
  reconcile_each db [] n run = (some run, db)
  reconcile_each db (job ∷ jobs) n run =
      let answer = reconcile (hosts n) executor db job.decision_id in
      elim (tallied (counted answer.0) run) [
        | none ↦ (none, answer.1)
        | some tally ↦ reconcile_each answer.1 jobs (n + 1) tally
      ]

  abbrev pub work_observed : Option ℕ × ClosureDb → ℕ → Option WorkerRun × ClosureDb
  work_observed (none, db) limit = (some (record { claimed = 0; closed_ = 0; unknown = 0 }), db)
  work_observed (some now, db) limit =
      let claims = claim_due_jobs db "closure-worker-1" now 2000 limit in
      reconcile_each claims.1 claims.0 1
        (record { claimed = length claims.0; closed_ = 0; unknown = 0 })

  unfoldable pub run_reconciliation_worker : ClosureDb → ℕ → Option WorkerRun × ClosureDb
  unfolding reconcile_each
  run_reconciliation_worker db limit = work_observed (observe_clock db (hosts 0).now) limit

-- What the methods that only read return; `none` is the status 404.
pub record AuthorizationStatus : Type 0 where
  pub decision_id : String
  pub state : ProtocolState
  pub proof_id : Option String
  pub job : Option ReconciliationJob

abbrev proof_id_of : Option StoredProof → Option String
proof_id_of none = none
proof_id_of (some proof) = some proof.proof_id

unfoldable pub authorization_status : ClosureDb → String → Option AuthorizationStatus
authorization_status db decision_id = get_authorization db decision_id >>= λ authorization.
    some (record {
      decision_id = decision_id;
      state = authorization.state;
      proof_id = proof_id_of (get_proof_by_decision db decision_id);
      job = get_job_by_decision db decision_id;
    })

unfoldable pub unresolved_queue : ClosureDb → List ReconciliationJob
unresolved_queue db = list_unresolved_jobs db

unfoldable pub load_proof : ClosureDb → String → ServiceResult
load_proof db proof_id = elim (get_proof db proof_id) [
  | none ↦ failed 404 "PROOF_NOT_FOUND"
  | some proof ↦ answered 200 false (proof_value proof.proof_id proof)
]
