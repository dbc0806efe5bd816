-- ===== src/Ledger.antt =====
-- packages/core/src/ledger.ts: accounts, balances and the journal write path. Random ids and the
-- clock are arguments. A statement that breaks a constraint of the schema throws: `none`.
pub mod Write
pub mod Clear
pub mod Spendable
use agentic_bank.Common.{
  ℕ, Bool, false, not, ◌&&◌, ◌||◌, Option, none, some, List, ◌++◌, String, ℤ, pos, ◌+ℤ◌, ◌-ℤ◌, leb,
  ltb, if◌then◌else◌, ◌===◌, string_eq, option_eq, find, select, update, sum_by,
}
use agentic_bank.Store.{Account, AccountView, Journal, Entry, Db}
use agentic_bank.Store.Types.{
  AccountStatus, JournalStatus, Side, account_status_eq, journal_status_eq, side_eq, Product,
}

abbrev pub by_id : String → Account → Bool
by_id i a = a.id === i

abbrev pub journal_by_id : String → Journal → Bool
journal_by_id i j = j.id === i

unfoldable pub get_account : Db → String → Option Account
get_account db account_id = find (by_id account_id) db.accounts

unfoldable pub set_account_status : Db → String → AccountStatus → Option Account × Db
unfolding get_account
set_account_status db account_id status = elim (get_account db account_id) [
  | none ↦ (none, db)
  | some _ ↦ (get_account updated account_id, updated)
]
  where
    updated : Db
    updated = record db {
      accounts = update (by_id account_id) (λ a. record a { status = status }) db.accounts;
    }

-- SUM(CASE WHEN side = … AND posted = … THEN amount ELSE 0 END)
abbrev pub amount_if : (Entry → Bool) → Entry → ℤ
amount_if p e = if p e then e.amount else pos 0

unfoldable pub posted_credits : Db → String → ℤ
posted_credits db account_id =
    sum_by (amount_if (λ e. e.account_id === account_id && e.side === Side.credit && e.posted))
      db.entries

unfoldable pub posted_debits : Db → String → ℤ
posted_debits db account_id =
    sum_by (amount_if (λ e. e.account_id === account_id && e.side === Side.debit && e.posted))
      db.entries

unfoldable pub available_balance : Db → String → ℤ
unfolding posted_credits posted_debits
available_balance db account_id = posted_credits db account_id -ℤ posted_debits db account_id

unfoldable pub get_journal : Db → String → Option Journal
get_journal db journal_id = find (journal_by_id journal_id) db.journals

-- The join with `journals` on a journal's id, for a condition on its status.
abbrev pub has_status : JournalStatus → Option Journal → Bool
has_status s none = false
has_status s (some j) = j.status === s

unfoldable pub pending_debits : Db → String → ℤ
unfolding get_journal
pending_debits db account_id =
    sum_by
      (amount_if λ e.
        e.account_id === account_id
        && e.side === Side.debit
        && not e.posted
        && has_status JournalStatus.pending (get_journal db e.journal_id))
      db.entries

unfoldable pub pending_out : Db → String → ℤ
unfolding pending_debits
pending_out = pending_debits

unfoldable pub account_view : Db → String → Option AccountView
unfolding get_account posted_credits posted_debits pending_out
account_view db account_id = elim (get_account db account_id) [
  | none ↦ none
  | some acc ↦ some (record {
    id = acc.id;
    customer_id = acc.customer_id;
    product = acc.product;
    status = acc.status;
    available = posted_credits db account_id -ℤ posted_debits db account_id;
    pending_out = pending_out db account_id;
    posted_credits = posted_credits db account_id;
    posted_debits = posted_debits db account_id;
  })
]

-- The entries of one journal, credits first: ORDER BY side.
unfoldable pub journal_entries : Db → String → List Entry
journal_entries db journal_id = of_side Side.credit ++ of_side Side.debit
  where
    of_side : Side → List Entry
    of_side s = select (λ e. e.journal_id === journal_id && e.side === s) db.entries

unfoldable pub entry_sides : List Entry → ℤ × ℤ
entry_sides entries = (side_sum Side.debit, side_sum Side.credit)
  where
    side_sum : Side → ℤ
    side_sum s = sum_by (amount_if λ e. e.side === s) entries

unfoldable pub get_journal_by_idempotency : Db → String → Option Journal
get_journal_by_idempotency db key = find (λ j. j.idempotency_key === some key) db.journals

-- The sum of all posted amounts of one side.
unfoldable pub posted_entry_sum : Db → ℤ × ℤ
posted_entry_sum db = (posted_sum Side.debit, posted_sum Side.credit)
  where
    posted_sum : Side → ℤ
    posted_sum s = sum_by (amount_if λ e. e.side === s && e.posted) db.entries

unfoldable pub available_sum_all : Db → ℤ
unfolding available_balance
available_sum_all db = sum_by (λ a. available_balance db a.id) db.accounts

-- The join with `accounts` on an account's id, for a condition on its customer.
abbrev pub owned_by : String → Option Account → Bool
owned_by customer_id none = false
owned_by customer_id (some a) = a.customer_id === some customer_id

-- What a customer's accounts send in the half-open range of times, posted or pending.
unfoldable pub customer_outbound : Db → String → ℕ × ℕ → ℤ
unfolding get_account
customer_outbound db customer_id (start_utc, end_utc) = sum_by amount_out db.journals
  where
    amount_out : Journal → ℤ
    amount_out j =
        if owned_by customer_id (get_account db j.from_account_id)
          && (j.status === JournalStatus.posted || j.status === JournalStatus.pending)
          && leb start_utc j.created_at
          && ltb j.created_at end_utc
        then j.amount
        else pos 0
