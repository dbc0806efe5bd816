-- ===== src/Transfers/Effects.antt =====
-- What a step of the ledger has done when it returns: the calls inverted, once for all proofs.
use agentic_bank.Common.{
  ℕ, ◌≡◌, ◌⊎◌, inl, inr, refl, Option, none, some, String, update, trim, Option-cases,
}
use agentic_bank.Store.{Journal, Db}
use agentic_bank.Store.Types.{AccountStatus, pending}
use agentic_bank.Ledger.{
  by_id, get_account, get_journal, get_journal_by_idempotency, set_account_status,
}
use agentic_bank.Ledger.Write.{TransferJournalInput, FreshIds}
use agentic_bank.Ledger.Write.Refusals.{Accepted}
use agentic_bank.Ledger.Write.Effect.{IsFresh, RefersIn}
use agentic_bank.Ledger.Write.Idempotence.{after_first, write_cases}
use agentic_bank.Ledger.Clear.{
  apply_pending_journal, reject_pending_journal, post_journal, deny_journal, mark_posted,
  mark_denied,
}
use agentic_bank.Ledger.Clear.Lifecycle.{Clears, apply_pending-Clears, reject_pending-Clears}
use agentic_bank.Policy.{PolicyInput}
use agentic_bank.Transfers.{
  Follows, LedgerStep, transfers, approves, rejects, changes_status, elsewhere, beside,
}

-- The accounts after a status write.
abbrev pub with_status : String → AccountStatus → Db → Db
with_status id status db = record db {
  accounts = update (by_id id) (λ a. record a { status = status }) db.accounts;
}

pub data LedgerEffect (db : Db) : Db → Type 0 where
  unchanged : LedgerEffect db db
  wrote :
      (ask : PolicyInput) (input : TransferJournalInput) (ids : FreshIds) (ts : ℕ)
      → Follows db ask input
      → IsFresh db ids
      → Accepted db (trim input.idempotency_key) input
      → get_journal_by_idempotency db (trim input.idempotency_key) ≡ none
      → LedgerEffect db (after_first db input ids ts)
  posts :
      (id : String) (ts : ℕ) (j : Journal)
      → get_journal db id ≡ some j
      → j.status ≡ pending
      → LedgerEffect db (post_journal ts id db)
  denies :
      (id : String) (j : Journal)
      → get_journal db id ≡ some j
      → j.status ≡ pending
      → LedgerEffect db (deny_journal id db)
  sets_status : (id : String) (status : AccountStatus) → LedgerEffect db (with_status id status db)
  goes_elsewhere : (rest : Db) → LedgerEffect db (beside db rest)

-- A clearing call that returns has changed nothing, or has cleared a pending journal.
Clears-cases :
    (mark : Journal → Journal) (change : Db → Db) (db db' : Db) (o r : Option Journal)
    → Clears mark change db o (some (r, db'))
    → (db' ≡ db) ⊎ ((j : Journal) × (o ≡ some j) × (j.status ≡ pending) × (db' ≡ change db))
Clears-cases mark change db db' none r h = inl (cc)
Clears-cases mark change db db' (some j) r (inl (p, e)) = inr (j, refl, p, cc)
Clears-cases mark change db db' (some j) r (inr (_, e)) = inl (cc)

approve_effect :
    (db db' : Db) (id : String) (ts : ℕ) (r : Option Journal)
    → apply_pending_journal db id ts ≡ some (r, db')
    → LedgerEffect db db'
approve_effect db db' id ts r e =
    let cleared = rw e at (apply_pending-Clears db id ts (get_journal db id) refl) in
    elim (Clears-cases (mark_posted ts) (post_journal ts id) db db' (get_journal db id) r cleared) [
      | inl same ↦ rw same unchanged
      | inr (j, known, is_pending, changed) ↦ rw changed (posts id ts j known is_pending)
    ]

reject_effect :
    (db db' : Db) (id : String) (r : Option Journal)
    → reject_pending_journal db id ≡ some (r, db')
    → LedgerEffect db db'
reject_effect db db' id r e =
    let cleared = rw e at (reject_pending-Clears db id (get_journal db id) refl) in
    elim (Clears-cases mark_denied (deny_journal id) db db' (get_journal db id) r cleared) [
      | inl same ↦ rw same unchanged
      | inr (j, known, is_pending, changed) ↦ rw changed (denies id j known is_pending)
    ]

status_effect :
    (db : Db) (id : String) (status : AccountStatus)
    → LedgerEffect db (set_account_status db id status).1
unfolding set_account_status
status_effect db id status = elim (Option-cases (get_account db id)) [
  | inl e ↦ rw (e, set_account_status) unchanged
  | inr (acc, e) ↦ rw (e, set_account_status) (sets_status id status)
]

pub step_effect : {db db' : Db} → LedgerStep db db' → RefersIn db db.entries → LedgerEffect db db'
step_effect {db} {db'} (transfers ask input ids ts r follows fresh e) refers =
    elim (write_cases db input ids ts r db' fresh refers e) [
      | inl same ↦ rw same unchanged
      | inr (accepted, unused, changed) ↦
          rw changed (wrote ask input ids ts follows fresh accepted unused)
    ]
step_effect {db} {db'} (approves id ts r e) refers = approve_effect db db' id ts r e
step_effect {db} {db'} (rejects id r e) refers = reject_effect db db' id r e
step_effect {db} (changes_status id status) refers = status_effect db id status
step_effect (elsewhere rest) refers = goes_elsewhere rest
