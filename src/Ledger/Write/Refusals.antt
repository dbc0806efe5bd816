-- ===== src/Ledger/Write/Refusals.antt =====
-- packages/core/src/ledger.ts: which calls `writeTransferJournal` refuses.
use agentic_bank.Common.{
  ◌≡◌, ◌≢◌, ◌⊎◌, ◌↔◌, inl, inr, refl, none, some, String, arith, find, Option-cases,
}
use agentic_bank.Store.{Account, AuditRow, Db}
use agentic_bank.Store.Types.{AccountStatus, Decision, RuleId, Action}
use agentic_bank.Ledger.{get_account}
use agentic_bank.Ledger.Write.{
  TransferJournalInput, DecisionInput, missing, known, other, audit_by_id, refusal,
}

-- The decisions that are written to the journal.
abbrev pub IsJournalable : Decision → RuleId → Type 0
IsJournalable d r =
    (d ≡ Decision.allow)
    ⊎ ((d ≡ Decision.deny_nsf)
        ⊎ (((d ≡ Decision.deny_limit) × (r ≡ RuleId.daily_cap)) ⊎ (d ≡ Decision.dual_control)))

-- What a call must bring: a key, a journalable decision, the audit row of that decision, and two
-- open accounts.
pub record Accepted (db : Db) (key : String) (input : TransferJournalInput) : Type 0 where
  pub decision : Decision
  pub row : AuditRow
  pub from : Account
  pub to : Account
  pub has_key : key ≢ ""
  pub decided : input.decision ≡ known decision
  pub journalable : IsJournalable decision input.rule_id
  pub has_ref : input.decision_ref ≢ ""
  pub audited : find (audit_by_id input.decision_ref) db.audit ≡ some row
  pub by_policy : row.action ≡ Action.policy_decide
  pub same_decision : row.decision ≡ decision
  pub from_known : get_account db input.from_account_id ≡ some from
  pub to_known : get_account db input.to_account_id ≡ some to
  pub from_open : from.status ≡ AccountStatus.opened
  pub to_open : to.status ≡ AccountStatus.opened

refusal_of_Accepted :
    (db : Db) (key : String) (input : TransferJournalInput)
    → Accepted db key input
    → refusal db key input ≡ none
unfolding refusal
refusal_of_Accepted db key input a = ground arith

-- The lookups that the guards make, each with a row.
module _ (db : Db) (key : String) (input : TransferJournalInput)
    (open_ : refusal db key input ≡ none) where
  found_audit :
      (d : Decision)
      → input.decision ≡ known d
      → (row : AuditRow) × (find (audit_by_id input.decision_ref) db.audit ≡ some row)
        × (row.action ≡ Action.policy_decide)
        × (row.decision ≡ d)
  unfolding refusal
  found_audit d e = elim (Option-cases (find (audit_by_id input.decision_ref) db.audit)) [
    | inl absent ↦ absurd (ground arith)
    | inr (row, found) ↦ (row, found, ground arith, ground arith)
  ]

  found_account :
      (id : String)
      → (id ≡ input.from_account_id) ⊎ (id ≡ input.to_account_id)
      → (a : Account) × (get_account db id ≡ some a) × (a.status ≡ AccountStatus.opened)
  unfolding refusal
  found_account id which = elim (Option-cases (get_account db id)) [
    | inl absent ↦ absurd (ground arith)
    | inr (a, found) ↦ (a, found, ground arith)
  ]

  found_decision :
      (d : DecisionInput)
      → input.decision ≡ d
      → (d' : Decision) × (input.decision ≡ known d') × IsJournalable d' input.rule_id
  unfolding refusal
  found_decision missing e = absurd (ground arith)
  found_decision (other s) e = absurd (ground arith)
  found_decision (known d) e = (d, e, ground arith)

  guards : (key ≢ "") × (input.decision_ref ≢ "")
  unfolding refusal
  guards = ground arith

-- The guards pass exactly the calls that bring all this.
pub refusal-Accepted :
    (db : Db) (key : String) (input : TransferJournalInput)
    → (refusal db key input ≡ none) ↔ Accepted db key input
refusal-Accepted db key input = (accepted, refusal_of_Accepted db key input)
  where
    accepted : refusal db key input ≡ none → Accepted db key input
    accepted h =
        let (d, decided, journalable) = found_decision db key input h input.decision refl in
        let (row, audited, by_policy, same) = found_audit db key input h d decided in
        let (from, from_known, from_open) =
          found_account db key input h input.from_account_id (inl refl) in
        let (to, to_known, to_open) = found_account db key input h input.to_account_id (inr refl) in
        record {
          decision = d;
          row = row;
          from = from;
          to = to;
          has_key = (guards db key input h).0;
          decided = decided;
          journalable = journalable;
          has_ref = (guards db key input h).1;
          audited = audited;
          by_policy = by_policy;
          same_decision = same;
          from_known = from_known;
          to_known = to_known;
          from_open = from_open;
          to_open = to_open;
        }
