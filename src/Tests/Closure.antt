-- ===== src/Tests/Closure.antt =====
-- Runs of the service that executes a transfer once, over a small bank of one synthetic customer.
use agentic_bank.Common.{
  trim, ◌-ℤ◌, ◌+ℤ◌, sum_by, includes, Option_discrete, update, select, ℕ, suc, ◌+◌, ◌≤◌, ◌≡◌, refl,
  ◌⊎◌, true, false, String_discrete, none, some, [], ◌∷◌, String, pos, length, find, if◌then◌else◌,
  leb,
}
use agentic_bank.Store.{Db, Account}
use agentic_bank.Store.Args.{str, null}
use agentic_bank.Store.Types.{Product, JournalStatus, Side}
use agentic_bank.Tests.{bank, row_of, journal_of, line, new_ids, texts_differ}
use agentic_bank.Tests.Tools.{host as tools_host}
use agentic_bank.Transfers.{LedgerReach}
use agentic_bank.Ledger.{get_journal}
use agentic_bank.Ledger.Write.Effect.{IsFresh}
use agentic_bank.Treasury.Execution.{RemembersNothing}
use agentic_bank.Closure.Executor.{ExecutorHost, default_closure_executor}
use agentic_bank.Closure.Calls.Refinement.{commit-LedgerReach}
use agentic_bank.Closure.Types.{ClosureDb, ReconciliationJob, queued, unresolved}
use agentic_bank.Closure.Repository.Jobs.{job_by_id, is_due, enqueue_reconciliation_job}
use agentic_bank.Closure.Repository.Retries.{backoff_all, backoff_all-retries, last_time}
use agentic_bank.Closure.Service.{
  ServiceHost, ServiceResult, Request, mandate_request, authorize_request, approval_request,
  revocation_request, commit_request,
}
use agentic_bank.Closure.Authorize.{authorize}
use agentic_bank.Closure.Register.{register_mandate}
use agentic_bank.Closure.Commit.{commit}
use agentic_bank.Closure.Reconcile.{ClosureExecutor, executed}
use agentic_bank.Closure.History.{IsSound}
use agentic_bank.Closure.Calls.{
  ServiceReach, idle, then_, registers, authorizes, commits, core_changes, ServiceReach-IsSound,
}
use agentic_bank.Closure.Calls.Once.{commit-once}

hash_of : Request → String
hash_of (mandate_request customer from to max_amount agent) = "mandate"
hash_of (authorize_request mandate_id amount) = mandate_id
hash_of (approval_request decision_id approver_id) = decision_id
hash_of (revocation_request mandate_id) = mandate_id
hash_of (commit_request decision_id) = decision_id

abbrev host : ServiceHost
host = record {
  request_hash = hash_of;
  effect_hash = λ action. action.action_id;
  amount_of = λ text. some 40_000;
  valid_mandate = λ mandate. true;
  valid_action = λ action. true;
  live_at = 1_000_000_000_000;
  now = 1_000_000_000_000;
  mandate_uuid = "m1";
  action_uuid = "a1";
  decision_uuid = "d1";
  approval_uuid = "p1";
  capsule_uuid = "c1";
  job_uuid = "j1";
  proof_uuid = "x1";
}

abbrev core : Db
core = record bank {
  customers = "syn_alice" ∷ [];
  accounts =
      row_of "syn-chk" (some "syn_alice") Product.checking
      ∷ row_of "syn-sav" (some "syn_alice") Product.savings
      ∷ bank.accounts;
  journals = journal_of "j9" "house" "syn-chk" (pos 900_000) JournalStatus.posted ∷ [];
  entries = line "e9" "j9" "syn-chk" Side.credit (pos 900_000) true ∷ [];
}

abbrev closed_book : ClosureDb
closed_book = record {
  core = core;
  idempotency = [];
  mandates = [];
  authorizations = [];
  consumptions = [];
  proofs = [];
  last_observed_ms = none;
  jobs = [];
}

-- An executor that notes its key among the customers, so that a run of it shows.
abbrev executor : ClosureExecutor
executor = record {
  execute = λ db input. (
    executed (record {
      journal_id = "j10";
      ledger_sequence = 2;
      from_account_id = input.from_account_id;
      to_account_id = input.to_account_id;
      amount = pos input.amount;
    }),
    record db { customers = input.idempotency_key ∷ [] },
  );
  lookup = λ db key. none;
}

abbrev registered : ClosureDb
registered =
    (register_mandate host closed_book (some "k1") (str "syn_alice") (str "syn-chk") (str "syn-sav")
      (str "90000") null).1

abbrev allowed : ClosureDb
allowed = (authorize host registered "mandate-m1" (some "k2") (str "40000")).1

abbrev committed : ClosureDb
committed = (commit host executor allowed "decision-d1" (some "k3")).1

closed_book-IsSound : IsSound closed_book
closed_book-IsSound = record { rows = tt; proved = tt }

history : ServiceReach executor closed_book committed
history =
    then_
      (then_
        (then_ idle (
          registers host (some "k1") (str "syn_alice") (str "syn-chk") (str "syn-sav") (str "90000")
            null))
        (authorizes host "mandate-m1" (some "k2") (str "40000")))
      (commits host "decision-d1" (some "k3"))

ServiceReach-IsSound_example : IsSound committed
ServiceReach-IsSound_example = ServiceReach-IsSound closed_book-IsSound history

allowed-IsSound : IsSound allowed
allowed-IsSound = ServiceReach-IsSound {executor = executor} closed_book-IsSound (
    then_
      (then_ idle (
        registers host (some "k1") (str "syn_alice") (str "syn-chk") (str "syn-sav") (str "90000")
          null))
      (authorizes host "mandate-m1" (some "k2") (str "40000")))

commit-once_example :
    ((commit host executor allowed "decision-d1" (some "k3")).1.core ≡ allowed.core)
    ⊎ ((commit host executor committed "decision-d1" (some "k4")).1.core ≡ committed.core)
commit-once_example =
    commit-once {executor = executor} {db = allowed} {later = committed} host host "decision-d1"
      (some "k3") (some "k4") allowed-IsSound idle

abbrev executor_host : ExecutorHost
executor_host = record {
  session_uuid = "s9";
  session_at = 1_000_000_003;
  handoff_host = record tools_host { audit_uuid = "a8"; trace_uuid = "t8" };
  transfer_host = tools_host;
  approval = record { uuid = "a9"; now = 1_000_000_005; applied_at = 1_000_000_006 };
}

-- The allowed transfer, over the tables of the core as they were at first.
abbrev restored : ClosureDb
restored = record allowed { core = core }

restored-IsSound : IsSound restored
restored-IsSound =
    ServiceReach-IsSound {executor = executor} allowed-IsSound (then_ idle (core_changes core))

core_fresh : IsFresh core new_ids
unfolding get_journal find String_discrete
core_fresh = record {
  new_journal = refl;
  new_debit = refl;
  new_credit = refl;
  distinct = texts_differ "e5" "e6" refl;
}

nothing_remembered : RemembersNothing core "s9"
unfolding find
nothing_remembered = refl

commit-LedgerReach_example :
    LedgerReach core
      (commit host
        (default_closure_executor executor_host)
        restored
        "decision-d1"
        (some "k3")).1.core
commit-LedgerReach_example =
    commit-LedgerReach host executor_host restored "decision-d1" (some "k3") restored-IsSound
      core_fresh nothing_remembered

abbrev with_job : ClosureDb
with_job = enqueue_reconciliation_job closed_book "job-j1" "decision-d1" 1_000_000 2

abbrev job : ReconciliationJob
job = record {
  job_id = "job-j1";
  decision_id = "decision-d1";
  state = queued;
  attempts = 0;
  max_attempts = 2;
  next_attempt_ms = 1_000_000;
  lease_owner = none;
  lease_until_ms = none;
  last_error = none;
}

job_there : find (job_by_id "job-j1") with_job.jobs ≡ some job
unfolding enqueue_reconciliation_job find String_discrete
job_there = refl

-- The second of two attempts is the last.
backoff_all-retries_example :
    (after : ReconciliationJob) × (find
        (job_by_id "job-j1")
        (backoff_all with_job "job-j1" (1_000_000 ∷ 1_001_000 ∷ []) "EXECUTION_UNKNOWN").jobs
      ≡ some after)
    × (after.attempts ≡ job.attempts + suc (length {A = ℕ} (1_001_000 ∷ [])))
    × (after.state ≡ (
        if leb job.max_attempts (job.attempts + suc (length {A = ℕ} (1_001_000 ∷ [])))
        then unresolved
        else queued))
    × (last_time 1_000_000 (1_001_000 ∷ []) + 500 ≤ after.next_attempt_ms)
    × (after.next_attempt_ms ≤ last_time 1_000_000 (1_001_000 ∷ []) + 60000)
    × ((at : ℕ) → after.state ≡ unresolved → is_due at after ≡ false)
backoff_all-retries_example =
    backoff_all-retries "job-j1" "EXECUTION_UNKNOWN" with_job job 1_000_000 (1_001_000 ∷ [])
      job_there

-- The commit runs the executor under the key of its capsule, and proves the execution.
committed_runs : committed.core.customers ≡ "closure:capsule-c1" ∷ []
unfolding commit register_mandate authorize agentic_bank.Closure.Service.keyed String_discrete trim
    agentic_bank.Closure.Repository.get_idempotency find agentic_bank.Ledger.customer_outbound
    agentic_bank.Closure.Snapshot.extract_live_account_snapshot agentic_bank.Ledger.get_account
    agentic_bank.Closure.Snapshot.integer_string ◌-ℤ◌ agentic_bank.Ledger.available_balance
    agentic_bank.Ledger.posted_credits agentic_bank.Ledger.posted_debits sum_by ◌+ℤ◌
    agentic_bank.Store.Types.Side_discrete agentic_bank.Ledger.pending_out
    agentic_bank.Ledger.pending_debits agentic_bank.Ledger.get_journal
    agentic_bank.Store.Types.JournalStatus_discrete agentic_bank.Store.Types.AccountStatus_discrete
    Option_discrete agentic_bank.Time.seoul_day_utc_range agentic_bank.Closure.Service.observed_now
    agentic_bank.Closure.Repository.observe_clock agentic_bank.Closure.Repository.save_mandate
    agentic_bank.Closure.Repository.save_idempotency agentic_bank.Closure.Repository.get_mandate
    agentic_bank.Closure.Repository.is_mandate_revoked
    agentic_bank.Protocol.Evaluator.is_action_within_mandate
    agentic_bank.Protocol.Evaluator.is_mandate_valid_at_authorization
    agentic_bank.Protocol.Evaluator.evaluate_krw_transfer
    agentic_bank.Closure.Repository.save_authorization
    agentic_bank.Closure.Repository.get_authorization
    agentic_bank.Closure.Repository.get_proof_by_decision includes
    agentic_bank.Protocol.State.ProtocolState_discrete agentic_bank.Closure.Types.Scope_discrete
    agentic_bank.Closure.Service.issue_capsule agentic_bank.Closure.Repository.consume_capsule
    agentic_bank.Closure.Repository.update_authorization update select enqueue_reconciliation_job
    agentic_bank.Closure.Service.finish_posted_commit agentic_bank.Closure.Repository.save_proof
    agentic_bank.Closure.Repository.mark_authorization_closed
    agentic_bank.Closure.Repository.Jobs.get_job_by_decision
    agentic_bank.Closure.Repository.Jobs.complete_job
committed_runs = refl
