-- ===== src/Transfers/Solvency/Steps.antt =====
-- The cover of the customer accounts (packages/core/src/ledger.ts) over each step and history.
use agentic_bank.Common.{
  ◌≡◌, inl, inr, refl, some, String, string_eq, arith, find, find-update, Option-cases,
}
use agentic_bank.Store.{Account, Db}
use agentic_bank.Store.Types.{AccountStatus}
use agentic_bank.Ledger.{
  get_account, get_journal, by_id, available_balance, pending_out, posted_credits, posted_debits,
}
use agentic_bank.Ledger.Spendable.{spendable}
use agentic_bank.Transfers.{beside, LedgerReach, here, next}
use agentic_bank.Transfers.Effects.{
  LedgerEffect, unchanged, wrote, posts, denies, sets_status, goes_elsewhere, with_status,
  step_effect,
}
use agentic_bank.Transfers.Solvency.{Solvent, after_first-Solvent, post-Solvent, deny-Solvent}

spendable-with_status :
    (db : Db) (id : String) (status : AccountStatus) (a : String)
    → spendable (with_status id status db) a ≡ spendable db a
unfolding available_balance pending_out posted_credits posted_debits get_journal
spendable-with_status db id status a = refl

-- An account after the write has the product of the one before.
product-with_status :
    (db : Db) (id : String) (status : AccountStatus) (a : String) (acc : Account)
    → get_account (with_status id status db) a ≡ some acc
    → (old : Account) × (get_account db a ≡ some old) × (old.product ≡ acc.product)
unfolding get_account
product-with_status db id status a acc e =
    let looked =
      find-update (by_id a) (by_id id) (λ x. record x { status = status }) db.accounts
        (λ x. refl) in
    elim (Option-cases (find (by_id a) db.accounts)) [
      | inl gone ↦ absurd (ground (arith, looked))
      | inr (old, found) ↦ (old, found, ground (arith, looked))
    ]

with_status-Solvent :
    (db : Db) (id : String) (status : AccountStatus)
    → Solvent db
    → Solvent (with_status id status db)
unfolding get_journal
with_status-Solvent db id status s = record {
  refers = s.refers;
  amounts = s.amounts;
  covered = λ a acc k customer.
      let (old, found, same) = product-with_status db id status a acc k in
      rw (spendable-with_status db id status a) (s.covered a old found (λ h. customer (cc)));
}

beside-Solvent : (db rest : Db) → Solvent db → Solvent (beside db rest)
unfolding available_balance pending_out posted_credits posted_debits get_journal get_account
beside-Solvent db rest s = record { refers = s.refers; amounts = s.amounts; covered = s.covered }

LedgerEffect-Solvent : {db db' : Db} → LedgerEffect db db' → Solvent db → Solvent db'
LedgerEffect-Solvent unchanged s = s
LedgerEffect-Solvent {db} (wrote ask input ids ts follows fresh accepted _) s =
    after_first-Solvent db ask input ids ts follows accepted fresh s
LedgerEffect-Solvent {db} (posts id ts j known is_pending) s =
    post-Solvent db id j ts known is_pending s
LedgerEffect-Solvent {db} (denies id j known is_pending) s = deny-Solvent db id j known is_pending s
LedgerEffect-Solvent {db} (sets_status id status) s = with_status-Solvent db id status s
LedgerEffect-Solvent {db} (goes_elsewhere rest) s = beside-Solvent db rest s

-- Wherever the ledger gets from a covered state, by transfers that follow the policy at the time
-- of the write, by approvals, denials and status changes in any order, every customer account
-- still has available funds for all that is pending on it, so none is overdrawn.
pub LedgerReach-Solvent : {db db' : Db} → LedgerReach db db' → Solvent db → Solvent db'
LedgerReach-Solvent here s = s
LedgerReach-Solvent (next r step) s =
    let before = LedgerReach-Solvent r s in
    LedgerEffect-Solvent (step_effect step before.refers) before
