-- ===== src/Closure/Snapshot.antt =====
-- apps/closure-api/src/snapshot.ts: what the service reads of the two accounts of a transfer.
use agentic_bank.Common.{
  ℕ, Option, none, some, String, ℤ, pos, negsuc, ◌-ℤ◌, ltb, if◌then◌else◌, ◌===◌, string_eq, ◌>>=◌,
}
use agentic_bank.Store.{Account, Db}
use agentic_bank.Ledger.{get_account, available_balance, pending_out, customer_outbound}
use agentic_bank.Time.{seoul_day_utc_range}
use agentic_bank.Protocol.Evaluator.{DecisionInputSnapshot}

abbrev pub non_empty : String → Option String
non_empty text = if text === "" then none else some text

pub data LiveAccounts : Type 0 where
  unavailable : LiveAccounts
  out_of_range : LiveAccounts
  live : DecisionInputSnapshot → LiveAccounts

-- The integers up to 2^53 - 1; any other amount throws.
unfoldable pub integer_string : ℤ → Option ℕ
integer_string (pos n) = if ltb n 9007199254740992 then some n else none
integer_string (negsuc n) = none

abbrev owner_of : Account → Option String
owner_of account = account.customer_id >>= non_empty

abbrev at_least_zero : ℤ → ℤ
at_least_zero (pos n) = pos n
at_least_zero (negsuc _) = pos 0

live_of : Account → Account → String → String → Option ℕ → Option ℕ → LiveAccounts
live_of from to from_owner to_owner none spent = out_of_range
live_of from to from_owner to_owner (some funds) none = out_of_range
live_of from to from_owner to_owner (some funds) (some spent) = live (record {
  from_account_status = from.status;
  to_account_status = to.status;
  from_owner_customer_id = from_owner;
  to_owner_customer_id = to_owner;
  spendable_funds = funds;
  daily_spent = spent;
})

live_between : Db → Option Account → Option Account → ℕ → LiveAccounts
unfolding live_of
live_between db none to now = unavailable
live_between db (some from) none now = unavailable
live_between db (some from) (some to) now = elim (owner_of from) [
  | none ↦ unavailable
  | some from_owner ↦ elim (owner_of to) [
    | none ↦ unavailable
    | some to_owner ↦
        live_of from to from_owner to_owner
          (integer_string (at_least_zero (available_balance db from.id -ℤ pending_out db from.id)))
          (integer_string (customer_outbound db from_owner (seoul_day_utc_range now)))
  ]
]

unfoldable pub extract_live_account_snapshot : Db → String → String → ℕ → LiveAccounts
unfolding live_between
extract_live_account_snapshot db from_account_id to_account_id now =
    live_between db (get_account db from_account_id) (get_account db to_account_id) now
