-- ===== src/Transfers/Conservation/Totals.antt =====
-- packages/core/src/ledger.ts, `availableSumAll`: the available balances of all accounts, the
-- house's contra account included.
use agentic_bank.Common.{
  ◌≡◌, refl, sym, ◌∙◌, true, ◌&&◌, none, List, [], ◌∷◌, String_discrete, ===_of_eq, ===_of_ne, ℤ,
  pos, if◌then◌else◌, ◌===◌, string_eq, int_laws, arith, find, sum_by, sum_by-cong, sum_by-cong_on,
  sum_by-sub, sum_by-add, sum_by-zero, is_some, All-map,
}
use agentic_bank.Store.{Account, Entry, Db}
use agentic_bank.Store.Types.{Side, side_eq}
use agentic_bank.Ledger.{
  by_id, get_account, available_balance, posted_credits, posted_debits, available_sum_all,
  amount_if,
}
use agentic_bank.Transfers.References.{AccountsIn}
use agentic_bank.Transfers.Conservation.{net_posted, Balanced}

-- PRIMARY KEY (id) of the accounts.
abbrev pub UniqueIds : List Account → Type 0
UniqueIds [] = Unit
UniqueIds (a ∷ rows) = (find (by_id a.id) rows ≡ none) × UniqueIds rows

-- What an entry adds to the available balance of one account.
abbrev on_account : Account → Entry → ℤ
on_account a e = if e.account_id === a.id then net_posted e else pos 0

available_balance-sum :
    (db : Db) (a : Account) → available_balance db a.id ≡ sum_by (on_account a) db.entries
unfolding available_balance posted_credits posted_debits
available_balance-sum db a =
    sym (
      sum_by-sub (amount_if λ e. e.account_id === a.id && e.side === Side.credit && e.posted)
        (amount_if λ e. e.account_id === a.id && e.side === Side.debit && e.posted) db.entries)
    ∙ sum_by-cong _ _ db.entries (λ e. grind int_laws)

-- A sum over rows and columns, in either order.
sum_by-swap :
    (rows : List Account) (es : List Entry)
    → sum_by (λ a. sum_by (on_account a) es) rows
      ≡ sum_by (λ e. sum_by (λ a. on_account a e) rows) es
unfolding sum_by
sum_by-swap [] es = sym (sum_by-zero es)
sum_by-swap (a ∷ rows) es =
    rw (sum_by-swap rows es)
      (sym (sum_by-add (on_account a) (λ e. sum_by (λ a'. on_account a' e) rows) es))

-- One account at most takes an entry, and one does if the entry's account is in the table.
sum-absent :
    (rows : List Account) (e : Entry)
    → find (by_id e.account_id) rows ≡ none
    → sum_by (λ a. on_account a e) rows ≡ pos 0
unfolding sum_by find
sum-absent [] e h = refl
sum-absent (a ∷ rows) e h = elim (String_discrete e.account_id a.id) [
  | yes hit ↦ absurd (ground arith)
  | no miss ↦ rw (===_of_ne _ _ miss, sum-absent rows e (ground arith)) (omega int_laws)
]

sum-present :
    (rows : List Account) (e : Entry)
    → UniqueIds rows
    → is_some (find (by_id e.account_id) rows) ≡ true
    → sum_by (λ a. on_account a e) rows ≡ net_posted e
unfolding sum_by find
sum-present [] e u h = cc
sum-present (a ∷ rows) e u h = elim (String_discrete e.account_id a.id) [
  | yes hit ↦ rw (===_of_eq _ _ hit, sum-absent rows e (rw hit u.0)) (omega int_laws)
  | no miss ↦ rw (===_of_ne _ _ miss, sum-present rows e u.1 (ground arith)) (omega int_laws)
]

-- The available balances of all accounts, as the code sums them, add up to zero in a balanced
-- ledger whose accounts have distinct ids and hold all the entries.
pub available_sum_all-zero :
    (db : Db)
    → UniqueIds db.accounts
    → AccountsIn db
    → Balanced db.entries
    → available_sum_all db ≡ pos 0
unfolding available_sum_all get_account
available_sum_all-zero db unique known b =
    sum_by-cong _ _ db.accounts (available_balance-sum db)
    ∙ sum_by-swap db.accounts db.entries
    ∙ sum_by-cong_on _ _ db.entries
        (All-map _ _ db.entries (λ e h. sum-present db.accounts e unique h) known)
    ∙ b.posted_net
