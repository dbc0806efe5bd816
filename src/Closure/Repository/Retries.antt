-- ===== src/Closure/Repository/Retries.antt =====
-- apps/closure-api/src/repository.ts: how a job is retried, over all the attempts that fail.
use agentic_bank.Common.{
  ℕ, zero, suc, ◌+◌, ◌*◌, ◌≤◌, ◌≡◌, false, some, List, [], ◌∷◌, String, leb, if◌then◌else◌,
  string_eq, find, find-update, find_holds, length, arith, refl, ap, ◌∙◌,
}
use agentic_bank.Closure.Types.{JobState_discrete, queued, unresolved, ReconciliationJob, ClosureDb}
use agentic_bank.Closure.Repository.Jobs.{
  job_state_eq, job_by_id, is_due, two_to, delay_after, backed_off, backoff_job, min,
}

-- Failed attempts at the given times, one after another.
unfoldable pub backoff_all : ClosureDb → String → List ℕ → String → ClosureDb
backoff_all db job_id [] error = db
backoff_all db job_id (now_ms ∷ times) error =
    backoff_all (backoff_job db job_id now_ms error).1 job_id times error

abbrev pub last_time : ℕ → List ℕ → ℕ
last_time now_ms [] = now_ms
last_time now_ms (t ∷ times) = last_time t times

two_to-grows : (n : ℕ) → 1 ≤ two_to n
unfolding two_to
two_to-grows zero = omega arith
two_to-grows (suc n) = omega (arith, two_to-grows n)

two_to-double : (n : ℕ) → 1 ≤ n → 2 ≤ two_to n
unfolding two_to
two_to-double zero h = omega (arith, h)
two_to-double (suc n) h = omega (arith, two_to-grows n)

pub delay_bounds :
    (attempts : ℕ) → (500 ≤ delay_after (attempts + 1)) × (delay_after (attempts + 1) ≤ 60000)
unfolding delay_after
delay_bounds attempts = (
  wait_bound (two_to (min (attempts + 1) 8)) (two_to-double (min (attempts + 1) 8) (ground arith)),
  ground arith,
)
  where
    wait_bound : (p : ℕ) → 2 ≤ p → 500 ≤ min 60000 (250 * p)
    wait_bound p h = ground arith

module _ (job_id error : String) where
  keeps_id :
      (now_ms : ℕ) (job : ReconciliationJob)
      → job_by_id job_id (backed_off now_ms error job) ≡ job_by_id job_id job
  unfolding backed_off
  keeps_id now_ms job = refl

  found_after :
      (db : ClosureDb) (now_ms : ℕ) (job : ReconciliationJob)
      → find (job_by_id job_id) db.jobs ≡ some job
      → find (job_by_id job_id) (backoff_job db job_id now_ms error).1.jobs
        ≡ some (backed_off now_ms error job)
  unfolding backoff_job
  found_after db now_ms job e = ground (
    arith,
    e,
    find-update (job_by_id job_id) (job_by_id job_id) (backed_off now_ms error) db.jobs
        (keeps_id now_ms),
    find_holds (job_by_id job_id) db.jobs job e,
  )

  -- After any number of failed attempts, at least one, a job has counted them, waits between half a
  -- second and a minute after the last, and is queued again below its limit of attempts and unresolved
  -- from the limit on, when no worker claims it any more.
  pub backoff_all-retries :
      (db : ClosureDb) (job : ReconciliationJob) (now_ms : ℕ) (times : List ℕ)
      → find (job_by_id job_id) db.jobs ≡ some job
      → (after : ReconciliationJob) × (find
            (job_by_id job_id)
            (backoff_all db job_id (now_ms ∷ times) error).jobs
          ≡ some after)
        × (after.attempts ≡ job.attempts + suc (length times))
        × (after.state ≡ (
            if leb job.max_attempts (job.attempts + suc (length times))
            then unresolved
            else queued))
        × (last_time now_ms times + 500 ≤ after.next_attempt_ms)
        × (after.next_attempt_ms ≤ last_time now_ms times + 60000)
        × ((at : ℕ) → after.state ≡ unresolved → is_due at after ≡ false)
  unfolding backoff_all backed_off is_due JobState_discrete
  backoff_all-retries db job now_ms [] e = (
    backed_off now_ms error job,
    found_after db now_ms job e,
    omega arith,
    ground arith,
    omega (arith, delay_bounds job.attempts),
    omega (arith, delay_bounds job.attempts),
    λ at h. rw h,
  )
  backoff_all-retries db job now_ms (t ∷ times) e =
      let first = backed_off now_ms error job in
      let (after, held, attempts, state, low, high, settled) =
        backoff_all-retries (backoff_job db job_id now_ms error).1 first t times
          (found_after db now_ms job e) in
      (
        after,
        held,
        omega (arith, attempts),
        state ∙ ap (λ n. if leb job.max_attempts n then unresolved else queued) (omega arith),
        low,
        high,
        settled,
      )
