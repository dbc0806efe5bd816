-- ===== src/Ledger/Write.antt =====
-- packages/core/src/ledger.ts, `writeTransferJournal` and what it calls.
pub mod Refusals
pub mod Effect
pub mod Idempotence
use agentic_bank.Common.{
  ℕ, Bool, true, false, not, ◌&&◌, ◌||◌, Option, none, some, List, [], ◌∷◌, ◌++◌, String, ℤ, pos,
  leb, leb_ℤ, ltb_ℤ, if◌then◌else◌, ◌===◌, string_eq, option_eq, int_eq, find, delete, length, trim,
  ◌>>=◌, ◌>>◌, throw_if, is_some,
}
use Prim.Native.String.{◌++◌ as ◌<>◌}
use agentic_bank.Store.{Account, Journal, Entry, AuditRow, Db}
use agentic_bank.Store.Types.{
  AccountStatus, JournalStatus, Actor, Side, Decision, RuleId, Action, account_status_eq,
  decision_eq, rule_id_eq, action_eq, journal_status_eq, decision_name, rule_name,
}
use agentic_bank.Audit.{audit_by_id}
use agentic_bank.Ledger.{
  get_account, get_journal, get_journal_by_idempotency, journal_by_id, journal_entries, entry_sides,
}

-- A decision as the caller states it: absent or empty, a `Decision`, or any other text.
pub data DecisionInput : Type 0 where
  missing : DecisionInput
  known : Decision → DecisionInput
  other : String → DecisionInput

-- `rule_id` and `created_by` are strings in the code; its callers pass members of the unions.
pub record TransferJournalInput : Type 0 where
  pub idempotency_key : String
  pub decision : DecisionInput
  pub decision_ref : String
  pub from_account_id : String
  pub to_account_id : String
  pub amount : ℤ
  pub rule_id : RuleId
  pub reason : String
  pub created_by : Option Actor

pub data WriteCode : Type 0 where
  missing_key missing_audit missing_decision decide_audit_missing : WriteCode
  not_journalable unknown_account idempotency_conflict : WriteCode

pub record JournalWriteErr : Type 0 where
  pub status : ℕ
  pub code : WriteCode
  pub reason : String

-- `ok` has the journal and the flag `replay`.
pub data JournalWriteResult : Type 0 where
  ok : Journal → Bool → JournalWriteResult
  err : JournalWriteErr → JournalWriteResult

-- The results of `randomUUID` in one call.
pub record FreshIds : Type 0 where
  pub journal : String
  pub debit : String
  pub credit : String

unfoldable pub is_journalable : DecisionInput → RuleId → Bool
is_journalable missing r = false
is_journalable (other s) r = false
is_journalable (known d) r =
    d === Decision.allow
    || d === Decision.deny_nsf
    || (d === Decision.deny_limit && r === RuleId.daily_cap)
    || d === Decision.dual_control

unfoldable pub status_for : DecisionInput → JournalStatus
status_for (known Decision.allow) = JournalStatus.posted
status_for (known Decision.dual_control) = JournalStatus.pending
status_for _ = JournalStatus.denied

unfoldable pub same_transfer_body : Journal → TransferJournalInput → Bool
same_transfer_body journal input =
    journal.from_account_id === input.from_account_id
    && journal.to_account_id === input.to_account_id
    && journal.amount === input.amount

abbrev decides : DecisionInput → Option AuditRow → Bool
decides (known d) (some row) = row.action === Action.policy_decide && row.decision === d
decides _ _ = false

unfoldable pub require_decide_audit : Db → String → DecisionInput → Bool
require_decide_audit db decision_ref decision =
    decides decision (find (audit_by_id decision_ref) db.audit)

-- INSERT INTO journals, with the table's constraints.
abbrev key_taken : Db → Option String → Bool
key_taken db none = false
key_taken db (some key) = is_some (get_journal_by_idempotency db key)

unfoldable pub insert_journal : Journal → Db → Option Db
insert_journal j db = do
  throw_if (is_some (get_journal db j.id))
  throw_if (key_taken db j.idempotency_key)
  throw_if (not (is_some (get_account db j.from_account_id)))
  throw_if (not (is_some (get_account db j.to_account_id)))
  some (record db { journals = db.journals ++ j ∷ [] })

abbrev pub entry_by_id : String → Entry → Bool
entry_by_id i e = e.id === i

-- INSERT INTO entries, with the table's constraints.
unfoldable pub insert_entry : Entry → Db → Option Db
insert_entry e db = do
  throw_if (is_some (find (entry_by_id e.id) db.entries))
  throw_if (not (is_some (get_journal db e.journal_id)))
  throw_if (not (is_some (get_account db e.account_id)))
  some (record db { entries = db.entries ++ e ∷ [] })

abbrev pub entry_of : Journal → Bool → ℕ → String → Side → String → Entry
entry_of journal posted ts id side account_id = record {
  id = id;
  journal_id = journal.id;
  account_id = account_id;
  side = side;
  amount = journal.amount;
  posted = posted;
  created_at = ts;
}

unfoldable pub insert_entry_pair : FreshIds → Journal → Bool → ℕ → Db → Option Db
insert_entry_pair ids journal posted ts db =
    if leb 2 (length (journal_entries db journal.id))
    then some db
    else insert_entry (entry_of journal posted ts ids.debit Side.debit journal.from_account_id) db
      >>= insert_entry (entry_of journal posted ts ids.credit Side.credit journal.to_account_id)

abbrev refuse : ℕ → WriteCode → String → Option JournalWriteErr
refuse status code reason = some (record { status = status; code = code; reason = reason })

abbrev pub is_missing : DecisionInput → Bool
is_missing missing = true
is_missing _ = false

abbrev decision_text : DecisionInput → String
decision_text missing = ""
decision_text (known d) = decision_name d
decision_text (other s) = s

abbrev pub is_open : Option Account → Bool
is_open none = false
is_open (some a) = a.status === AccountStatus.opened

-- The guards before the idempotency lookup, in the order of the code.
unfoldable pub refusal : Db → String → TransferJournalInput → Option JournalWriteErr
unfolding is_journalable require_decide_audit
refusal db key input =
    if key === ""
    then refuse 400 missing_key "idempotency_key is required"
    else if is_missing decision
    then refuse 400 missing_decision "decision is required"
    else if decision_ref === ""
    then refuse 400 missing_audit "decision_ref (decide audit_id) is required"
    else if not (is_journalable decision rule_id)
    then refuse 400 not_journalable (
        "decision "
        <> decision_text decision
        <> "/"
        <> rule_name rule_id
        <> " is audit-only; no journal")
    else if not (require_decide_audit db decision_ref decision)
    then refuse 400 decide_audit_missing
        "decision_ref must be a policy.decide audit_id for this decision"
    else if not (is_some from_acc) || not (is_some to_acc)
    then refuse 400 unknown_account "unknown account"
    else if not (is_open from_acc) || not (is_open to_acc)
    then refuse 400 not_journalable "decision DENY_POLICY/ACCOUNT_FROZEN is audit-only; no journal"
    else none
  where
    open input use {decision, decision_ref, rule_id, from_account_id, to_account_id}

    from_acc : Option Account
    from_acc = get_account db from_account_id

    to_acc : Option Account
    to_acc = get_account db to_account_id

abbrev decision_column : DecisionInput → Option Decision
decision_column (known d) = some d
decision_column _ = none

abbrev creator : Option Actor → Actor
creator none = Actor.agent
creator (some a) = a

-- The row of the new journal.
unfoldable pub journal_row : String → String → TransferJournalInput → ℕ → Journal
unfolding status_for
journal_row id key input ts = record {
  id = id;
  idempotency_key = some key;
  from_account_id = input.from_account_id;
  to_account_id = input.to_account_id;
  amount = input.amount;
  status = status_for input.decision;
  decision = decision_column input.decision;
  rule_id = some input.rule_id;
  reason = some input.reason;
  decision_ref = some input.decision_ref;
  created_by = some (creator input.created_by);
  created_at = ts;
  posted_at = if status_for input.decision === JournalStatus.posted then some ts else none;
}

-- The check after the inserts: two entries, equal sides, the journal's amount.
abbrev is_pair : Journal → List Entry → Bool
is_pair journal pair =
    let (debit, credit) = entry_sides pair in
    leb 2 (length pair) && leb (length pair) 2 && debit === credit && debit === journal.amount

abbrev header_only : JournalWriteResult
header_only = err (record {
  status = 400;
  code = not_journalable;
  reason = "header-only journal is a fail; two balanced postings are required";
})

unfoldable pub settle_pair : Journal → Db → JournalWriteResult × Db
settle_pair journal db =
    if is_pair journal (journal_entries db journal.id) then (ok journal false, db) else (
      header_only,
      record db {
        entries = delete (λ e. e.journal_id === journal.id) db.entries;
        journals = delete (journal_by_id journal.id) db.journals;
      },
    )

-- A column of INTEGER that holds 2^53 or more makes the read throw ERR_OUT_OF_RANGE; from 2^63 on
-- the column holds a REAL, which is read.
unfoldable pub is_unreadable : ℤ → Bool
is_unreadable amount =
    leb_ℤ (pos 9_007_199_254_740_992) amount && ltb_ℤ amount (pos 9_223_372_036_854_775_808)

-- `getJournal(db, id)!` on a journal that has just been inserted.
unfoldable pub read_journal : Db → String → Option Journal
read_journal db id = do
  journal ← get_journal db id
  throw_if (is_unreadable journal.amount)
  some journal

unfoldable pub write_new :
    Db → String → TransferJournalInput → FreshIds → ℕ → Option (JournalWriteResult × Db)
write_new db key input ids ts = do
  let posted = status_for input.decision === JournalStatus.posted
  with_journal ← insert_journal (journal_row ids.journal key input ts) db
  journal ← read_journal with_journal ids.journal
  with_pair ← insert_entry_pair ids journal posted ts with_journal
  some (settle_pair journal with_pair)

abbrev pub conflict : JournalWriteResult
conflict = err (record {
  status = 409;
  code = idempotency_conflict;
  reason = "idempotency key reused with a different body";
})

unfoldable pub write_transfer_journal :
    Db → TransferJournalInput → FreshIds → ℕ → Option (JournalWriteResult × Db)
write_transfer_journal db input ids ts =
    let key = trim input.idempotency_key in
    elim (refusal db key input) [
      | some e ↦ some (err e, db)
      | none ↦ elim (get_journal_by_idempotency db key) [
        | some existing ↦
            some (if same_transfer_body existing input then ok existing true else conflict, db)
        | none ↦ write_new db key input ids ts
      ]
    ]
