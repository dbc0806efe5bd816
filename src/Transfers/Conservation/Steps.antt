-- ===== src/Transfers/Conservation/Steps.antt =====
-- The two sides of packages/core/src/ledger.ts over the steps of the ledger.
use agentic_bank.Common.{
  ◌≡◌, ◌∙◌, refl, ap, none, Option, List, [], ◌∷◌, String, string_eq, pos, arith, find, find-update,
  update, trim, is_some, if◌then◌else◌, All-map,
}
use agentic_bank.Store.{Account, Db}
use agentic_bank.Store.Types.{AccountStatus}
use agentic_bank.Ledger.{by_id, get_account, get_journal, available_sum_all, posted_entry_sum}
use agentic_bank.Ledger.Write.{journal_row}
use agentic_bank.Ledger.Write.Effect.{RefersIn, written, is_posted}
use agentic_bank.Ledger.Clear.{post_journal, deny_journal}
use agentic_bank.Transfers.{LedgerReach, here, next}
use agentic_bank.Transfers.Effects.{
  LedgerEffect, unchanged, wrote, posts, denies, sets_status, goes_elsewhere, with_status,
  step_effect,
}
use agentic_bank.Transfers.References.{
  RefersIn-written, RefersIn-post, RefersIn-deny, AccountsIn, AccountsIn-written, AccountsIn-post,
}
use agentic_bank.Transfers.Conservation.{
  Balanced, Balanced-sides, written-Balanced, update-Balanced,
}
use agentic_bank.Transfers.Conservation.Totals.{UniqueIds, available_sum_all-zero}

pub record Sound (db : Db) : Type 0 where
  pub refers : RefersIn db db.entries
  pub accounts_in : AccountsIn db
  pub unique : UniqueIds db.accounts
  pub balanced : Balanced db.entries

-- A status write keeps the ids.
find-status :
    (id k : String) (status : AccountStatus) (rows : List Account)
    → is_some (find (by_id k) (update (by_id id) (λ a. record a { status = status }) rows))
      ≡ is_some (find (by_id k) rows)
find-status id k status rows =
    rw (find-update (by_id k) (by_id id) (λ a. record a { status = status }) rows (λ a. refl))
      (ground arith)

id-status :
    (id : String) (status : AccountStatus) (a : Account)
    → (if by_id id a then record a { status = status } else a).id ≡ a.id
id-status id status a = ground arith

none_of_not_some :
    (o : Option Account) (p : Option Account) → is_some o ≡ is_some p → p ≡ none → o ≡ none
none_of_not_some o p h e = ground arith

UniqueIds-status :
    (id : String) (status : AccountStatus) (rows : List Account)
    → UniqueIds rows
    → UniqueIds (update (by_id id) (λ a. record a { status = status }) rows)
unfolding update
UniqueIds-status id status [] u = tt
UniqueIds-status id status (a ∷ rows) u = (
  rw (id-status id status a) (none_of_not_some _ _ (find-status id a.id status rows) u.0),
  UniqueIds-status id status rows u.1,
)

with_status-Sound :
    (db : Db) (id : String) (status : AccountStatus) → Sound db → Sound (with_status id status db)
unfolding get_journal get_account
with_status-Sound db id status s = record {
  refers = s.refers;
  accounts_in =
      All-map _ _ db.entries (λ e h. find-status id e.account_id status db.accounts ∙ h)
        s.accounts_in;
  unique = UniqueIds-status id status db.accounts s.unique;
  balanced = s.balanced;
}

LedgerEffect-Sound : {db db' : Db} → LedgerEffect db db' → Sound db → Sound db'
unfolding journal_row written post_journal deny_journal get_account get_journal
LedgerEffect-Sound unchanged s = s
LedgerEffect-Sound {db} (wrote ask input ids ts follows fresh accepted _) s =
    let j = journal_row ids.journal (trim input.idempotency_key) input ts in
    record {
      refers = RefersIn-written j (is_posted input) ts ids db fresh.new_journal s.refers;
      accounts_in =
          AccountsIn-written j (is_posted input) ts ids db (ap is_some accepted.from_known)
            (ap is_some accepted.to_known) s.accounts_in;
      unique = s.unique;
      balanced = written-Balanced j (is_posted input) ts ids db s.balanced;
    }
LedgerEffect-Sound {db} (posts id ts j known is_pending) s = record {
  refers = RefersIn-post ts id db j s.refers;
  accounts_in = AccountsIn-post ts id db s.accounts_in;
  unique = s.unique;
  balanced = update-Balanced id db.entries s.balanced;
}
LedgerEffect-Sound {db} (denies id j known is_pending) s = record {
  refers = RefersIn-deny id db j s.refers;
  accounts_in = s.accounts_in;
  unique = s.unique;
  balanced = s.balanced;
}
LedgerEffect-Sound {db} (sets_status id status) s = with_status-Sound db id status s
LedgerEffect-Sound (goes_elsewhere rest) s = record {
  refers = s.refers;
  accounts_in = s.accounts_in;
  unique = s.unique;
  balanced = s.balanced;
}

pub LedgerReach-Sound : {db db' : Db} → LedgerReach db db' → Sound db → Sound db'
LedgerReach-Sound here s = s
LedgerReach-Sound (next r step) s =
    let before = LedgerReach-Sound r s in LedgerEffect-Sound (step_effect step before.refers) before

-- Double entry over every history of transfers, approvals, denials and status changes from a
-- sound state: the posted debits equal the posted credits, and the available balances of all
-- accounts sum to zero, each as the code computes it.
pub LedgerReach-conserves :
    {db db' : Db}
    → LedgerReach db db'
    → Sound db
    → ((posted_entry_sum db').0 ≡ (posted_entry_sum db').1) × (available_sum_all db' ≡ pos 0)
LedgerReach-conserves {db} {db'} r s =
    let after = LedgerReach-Sound r s in
    (
      Balanced-sides db' after.balanced,
      available_sum_all-zero db' after.unique after.accounts_in after.balanced,
    )
