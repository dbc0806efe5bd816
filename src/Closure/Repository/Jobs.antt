-- ===== src/Closure/Repository/Jobs.antt =====
-- apps/closure-api/src/repository.ts: the jobs that look up an execution whose result is unknown,
-- with their leases, their attempts and the wait between two attempts.
use agentic_bank.Common.{
  ℕ, zero, suc, ◌+◌, ◌*◌, Bool, true, ◌&&◌, ◌||◌, Option, none, some, List, [], ◌∷◌, ◌++◌, String,
  leb, if◌then◌else◌, Eq, ◌===◌, string_eq, find, select, update, is_some,
}
use agentic_bank.Closure.Types.{
  JobState, queued, leased, unresolved, done, JobState_discrete, ReconciliationJob, ClosureDb,
}

instance abbrev pub job_state_eq : Eq JobState
job_state_eq = record { dec_eq = JobState_discrete }

abbrev pub job_by_id : String → ReconciliationJob → Bool
job_by_id job_id job = job.job_id === job_id

-- INSERT OR IGNORE: a decision has one job.
unfoldable pub enqueue_reconciliation_job : ClosureDb → String → String → ℕ → ℕ → ClosureDb
enqueue_reconciliation_job db job_id decision_id now_ms max_attempts =
    if is_some (find (λ job. job.job_id === job_id || job.decision_id === decision_id) db.jobs)
    then db
    else record db {
      jobs =
          db.jobs
          ++ record {
            job_id = job_id;
            decision_id = decision_id;
            state = queued;
            attempts = 0;
            max_attempts = max_attempts;
            next_attempt_ms = now_ms;
            lease_owner = none;
            lease_until_ms = none;
            last_error = none;
          }
            ∷ [];
    }

unfoldable pub list_unresolved_jobs : ClosureDb → List ReconciliationJob
list_unresolved_jobs db =
    select (λ job. job.state === queued || job.state === leased || job.state === unresolved) db.jobs

abbrev pub is_free : ℕ → ReconciliationJob → Bool
is_free now_ms job = elim job.lease_until_ms [ none ↦ true | some until ↦ leb until now_ms ]

unfoldable pub is_due : ℕ → ReconciliationJob → Bool
is_due now_ms job =
    (job.state === queued || job.state === leased)
    && leb job.next_attempt_ms now_ms
    && is_free now_ms job

insert_by_next_attempt : ReconciliationJob → List ReconciliationJob → List ReconciliationJob
insert_by_next_attempt job [] = job ∷ []
insert_by_next_attempt job (other ∷ jobs) =
    let rest = insert_by_next_attempt job jobs in
    if leb job.next_attempt_ms other.next_attempt_ms then job ∷ other ∷ jobs else other ∷ rest

-- ORDER BY next_attempt_ms ASC
unfoldable pub order_by_next_attempt : List ReconciliationJob → List ReconciliationJob
unfolding insert_by_next_attempt
order_by_next_attempt [] = []
order_by_next_attempt (job ∷ jobs) = insert_by_next_attempt job (order_by_next_attempt jobs)

abbrev pub limit_to : ℕ → List ReconciliationJob → List ReconciliationJob
limit_to zero jobs = []
limit_to (suc n) [] = []
limit_to (suc n) (job ∷ jobs) = job ∷ limit_to n jobs

abbrev as_leased : String → ℕ → ReconciliationJob → ReconciliationJob
as_leased owner until job = record job {
  state = leased;
  lease_owner = some owner;
  lease_until_ms = some until;
}

-- Each job that is still free is leased.
unfoldable pub claim_each :
    ClosureDb → String → ℕ → ℕ → List ReconciliationJob → List ReconciliationJob × ClosureDb
claim_each db owner now_ms lease_ms [] = ([], db)
claim_each db owner now_ms lease_ms (job ∷ due) =
    let free = λ (row : ReconciliationJob). job_by_id job.job_id row && is_free now_ms row in
    let hit = is_some (find free db.jobs) in
    let after : ClosureDb = record db {
      jobs = update free (as_leased owner (now_ms + lease_ms)) db.jobs;
    } in
    let rest = claim_each after owner now_ms lease_ms due in
    (if hit then as_leased owner (now_ms + lease_ms) job ∷ rest.0 else rest.0, rest.1)

unfoldable pub claim_due_jobs : ClosureDb → String → ℕ → ℕ → ℕ → List ReconciliationJob × ClosureDb
unfolding claim_each order_by_next_attempt
claim_due_jobs db owner now_ms lease_ms limit =
    claim_each db owner now_ms lease_ms
      (limit_to limit (order_by_next_attempt (select (is_due now_ms) db.jobs)))

abbrev as_done : ReconciliationJob → ReconciliationJob
as_done job = record job { state = done; lease_owner = none; lease_until_ms = none }

unfoldable pub complete_job : ClosureDb → String → ClosureDb
complete_job db job_id = record db { jobs = update (job_by_id job_id) as_done db.jobs }

unfoldable pub two_to : ℕ → ℕ
two_to zero = 1
two_to (suc n) = 2 * two_to n

abbrev pub min : ℕ → ℕ → ℕ
min a b = if leb a b then a else b

-- The wait after the given number of attempts.
unfoldable pub delay_after : ℕ → ℕ
unfolding two_to
delay_after attempts = min 60000 (250 * two_to (min attempts 8))

-- A failed attempt: the last one leaves the job unresolved.
unfoldable pub backed_off : ℕ → String → ReconciliationJob → ReconciliationJob
unfolding delay_after
backed_off now_ms error job =
    let attempts = job.attempts + 1 in
    record job {
      state = if leb job.max_attempts attempts then unresolved else queued;
      attempts = attempts;
      next_attempt_ms = now_ms + delay_after attempts;
      lease_owner = none;
      lease_until_ms = none;
      last_error = some error;
    }

-- The row that is returned still shows the lease that the table has given up.
abbrev pub backoff_found :
    ClosureDb
    → String
    → ℕ
    → String
    → Option ReconciliationJob
    → Option ReconciliationJob × ClosureDb
backoff_found db job_id now_ms error none = (none, db)
backoff_found db job_id now_ms error (some row) = (
  some (record (backed_off now_ms error row) {
    lease_owner = row.lease_owner;
    lease_until_ms = row.lease_until_ms;
  }),
  record db { jobs = update (job_by_id job_id) (backed_off now_ms error) db.jobs },
)

unfoldable pub backoff_job : ClosureDb → String → ℕ → String → Option ReconciliationJob × ClosureDb
unfolding backed_off
backoff_job db job_id now_ms error =
    backoff_found db job_id now_ms error (find (job_by_id job_id) db.jobs)

unfoldable pub get_job_by_decision : ClosureDb → String → Option ReconciliationJob
get_job_by_decision db decision_id = find (λ job. job.decision_id === decision_id) db.jobs
