-- ===== src/Closure/Calls/Refinement.antt =====
-- apps/closure-api/src: a commit over the executor of executor.ts, as a history of the ledger.
use agentic_bank.Common.{◌≡◌, Option, String}
use Prim.Native.String.{◌++◌ as ◌<>◌}
use agentic_bank.Closure.Repository.Jobs.{enqueue_reconciliation_job}
use agentic_bank.Ledger.Write.Effect.{IsFresh}
use agentic_bank.Store.{Db}
use agentic_bank.Transfers.{LedgerReach, here}
use agentic_bank.Treasury.Execution.{RemembersNothing}
use agentic_bank.Closure.Types.{ClosureDb}
use agentic_bank.Closure.Service.{ServiceHost, failed}
use agentic_bank.Closure.Commit.{commit, commit_intended, execute_intended, transfer_input}
use agentic_bank.Closure.Executor.{ExecutorHost, default_closure_executor}
use agentic_bank.Closure.Executor.Refinement.{execute_synthetic_transfer-LedgerReach}
use agentic_bank.Closure.History.{ClosureReach, IsSound, quiet-core}
use agentic_bank.Closure.History.Commit.{record_intent-holds, execute_intended-Reach}
use agentic_bank.Closure.History.Cases.{commit-holds}

same_core : {db core : Db} → core ≡ db → LedgerReach db core
same_core e = rw e here

-- Whatever a commit over the executor over the tools answers on a sound state, the tables of the core
-- that it leaves are reached from those it was given by the steps of the ledger, when the ids of the
-- new journal and its entries are not in use and no decision is remembered under the id of the new
-- session.
pub commit-LedgerReach :
    (host : ServiceHost) (tools : ExecutorHost) (db : ClosureDb) (decision_id : String)
    (key : Option String)
    → IsSound db
    → IsFresh db.core tools.transfer_host.journal_uuids
    → RemembersNothing db.core tools.session_uuid
    → LedgerReach db.core (commit host (default_closure_executor tools) db decision_id key).1.core
unfolding commit_intended
commit-LedgerReach host tools db decision_id key sound fresh nothing =
    let executor = default_closure_executor tools in
    commit-holds host executor db decision_id (λ d. LedgerReach db.core d.core)
      (λ d r. same_core (quiet-core r))
      (λ row d r there on_path is_open capsule k hash now.
        record_intent-holds host executor (λ x. LedgerReach db.core x.core) row decision_id capsule
          now (λ code. (failed 409 code, d))
          (execute_intended host executor row decision_id capsule k hash now) r
          (λ code. same_core (quiet-core r))
          (λ moved e q.
            let input = transfer_input host executor row.stored capsule in
            let intended =
              enqueue_reconciliation_job moved ("job-" <> host.job_uuid) decision_id now 5 in
            rw
              (
                quiet-core (
                    execute_intended-Reach host executor row decision_id on_path is_open
                      {db = intended} capsule k hash now ClosureReach.here),
                quiet-core q,
              )
              (execute_synthetic_transfer-LedgerReach tools db.core input fresh nothing)))
      key sound
