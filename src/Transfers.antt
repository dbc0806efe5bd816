-- ===== src/Transfers.antt =====
-- The ledger of packages/core as a transition system: a transfer that follows a decision of the
-- policy, the two ways of clearing a pending journal, a change of an account's status, and any change
-- of the other tables.
pub mod References
pub mod Effects
pub mod Solvency
pub mod Conservation
pub mod History
use agentic_bank.Common.{ℕ, ◌≡◌, List, ◌++◌, some, String, Option, int}
use agentic_bank.Store.{Journal, AuditRow, Db}
use agentic_bank.Store.Types.{AccountStatus}
use agentic_bank.Ledger.{set_account_status}
use agentic_bank.Ledger.Write.{
  TransferJournalInput, FreshIds, JournalWriteResult, known, write_transfer_journal,
}
use agentic_bank.Ledger.Write.Effect.{IsFresh}
use agentic_bank.Ledger.Clear.{apply_pending_journal, reject_pending_journal}
use agentic_bank.Policy.{PolicyInput, decide}

-- The journal input carries the decision of the policy on this database, for this transfer.
pub record Follows (db : Db) (ask : PolicyInput) (input : TransferJournalInput) : Type 0 where
  pub decided : input.decision ≡ known (decide db ask).decision
  pub same_from : input.from_account_id ≡ ask.from_account_id
  pub same_to : input.to_account_id ≡ ask.to_account_id
  pub same_amount : ask.amount ≡ int input.amount

-- The ledger's tables of one database beside the other tables of another.
abbrev pub beside : Db → Db → Db
beside db rest = record rest {
  accounts = db.accounts;
  journals = db.journals;
  entries = db.entries;
}

pub data LedgerStep (db : Db) : Db → Type 0 where
  transfers :
      (ask : PolicyInput) (input : TransferJournalInput) (ids : FreshIds) (ts : ℕ)
      (r : JournalWriteResult) {db' : Db}
      → Follows db ask input
      → IsFresh db ids
      → write_transfer_journal db input ids ts ≡ some (r, db')
      → LedgerStep db db'
  approves :
      (id : String) (ts : ℕ) (r : Option Journal) {db' : Db}
      → apply_pending_journal db id ts ≡ some (r, db')
      → LedgerStep db db'
  rejects :
      (id : String) (r : Option Journal) {db' : Db}
      → reject_pending_journal db id ≡ some (r, db')
      → LedgerStep db db'
  changes_status :
      (id : String) (status : AccountStatus) → LedgerStep db (set_account_status db id status).1
  elsewhere : (rest : Db) → LedgerStep db (beside db rest)

pub data LedgerReach (db : Db) : Db → Type 0 where
  here : LedgerReach db db
  next : {db' db'' : Db} → LedgerReach db db' → LedgerStep db' db'' → LedgerReach db db''
