-- ===== src/Policy.antt =====
-- packages/core/src/policy.ts: the deterministic decision on a transfer.
pub mod Approval
use Prim.Native.String.{◌++◌ as ◌<>◌}
use agentic_bank.Common.{
  ℕ, Bool, false, not, ◌&&◌, ◌||◌, Option, none, some, String, ℤ, pos, ◌+ℤ◌, ◌-ℤ◌, ltb_ℤ, leb_ℤ,
  if◌then◌else◌, ◌===◌, string_eq, option_eq, show_int, Number, is_positive_int_won, won,
}
use agentic_bank.Store.{Account, Db, PolicyResult}
use agentic_bank.Store.Types.{
  Product, AccountStatus, Decision, RuleId, account_status_eq, product_eq, account_status_name,
}
use agentic_bank.Time.{seoul_day_utc_range}
use agentic_bank.Ledger.{get_account, available_balance, pending_out, customer_outbound}

abbrev pub daily_outbound_cap_krw : ℤ
daily_outbound_cap_krw = pos 5_000_000

abbrev pub dual_control_amount_krw : ℤ
dual_control_amount_krw = pos 1_000_000

abbrev pub copy_posted : String
copy_posted = "완료"

abbrev pub copy_pending : String
copy_pending = "승인 대기"

abbrev pub copy_denied : String
copy_denied = "거절"

pub record PolicyInput : Type 0 where
  pub from_account_id : String
  pub to_account_id : String
  pub amount : Number
  pub actor_customer_id : Option String
  pub now : ℕ

-- A value of type `string | null | undefined` in a test: present and not empty.
abbrev pub truthy : Option String → Bool
truthy none = false
truthy (some s) = not (s === "")

abbrev result : Decision → RuleId → String → String → PolicyResult
result d r reason copy = record { decision = d; rule_id = r; reason = reason; copy = copy }

abbrev deny : RuleId → String → String → PolicyResult
deny = result Decision.deny_policy

abbrev pub is_blocked : Account → Bool
is_blocked a = a.status === AccountStatus.frozen || a.status === AccountStatus.closed

-- `customerOutboundOnSeoulDay`
unfoldable pub customer_outbound_on_seoul_day : Db → String → ℕ → ℤ
customer_outbound_on_seoul_day db customer_id now =
    customer_outbound db customer_id (seoul_day_utc_range now)

-- The checks on money, for a known source and destination: funds, the daily cap, dual control.
unfoldable pub decide_funds : Db → PolicyInput → String → Account → PolicyResult
decide_funds db input customer_id to =
    let amount = won input.amount in
    let available = available_balance db input.from_account_id in
    let pending = pending_out db input.from_account_id in
    let spendable = available -ℤ pending in
    let outbound_today = customer_outbound_on_seoul_day db customer_id input.now in
    if ltb_ℤ spendable amount
    then result Decision.deny_nsf RuleId.nsf (nsf_reason spendable available pending amount)
        copy_denied
    else if ltb_ℤ daily_outbound_cap_krw (outbound_today +ℤ amount)
    then result Decision.deny_limit RuleId.daily_cap (cap_reason outbound_today amount) copy_denied
    else if not (some customer_id === to.customer_id)
    then result Decision.dual_control RuleId.dual_other_customer
        "transfer to another customer requires dual-control" copy_pending
    else if leb_ℤ dual_control_amount_krw amount
    then result Decision.dual_control RuleId.dual_amount
        ("amount "
          <> show_int amount
          <> " >= "
          <> show_int dual_control_amount_krw
          <> " requires dual-control")
        copy_pending
    else result Decision.allow RuleId.allow "within limits, same customer" copy_posted
  where
    nsf_reason : ℤ → ℤ → ℤ → ℤ → String
    nsf_reason spendable available pending amount =
        "NSF: spendable "
        <> show_int spendable
        <> " (available "
        <> show_int available
        <> " - pending_out "
        <> show_int pending
        <> ") < amount "
        <> show_int amount

    cap_reason : ℤ → ℤ → String
    cap_reason outbound_today amount =
        "daily outbound cap "
        <> show_int daily_outbound_cap_krw
        <> " exceeded (posted+pending "
        <> show_int outbound_today
        <> " + "
        <> show_int amount
        <> ")"

-- The checks on who sends and on the status of the accounts.
unfoldable pub decide_known : Db → PolicyInput → Account → Account → PolicyResult
decide_known db input from to =
    if from.product === Product.house || to.product === Product.house
    then deny RuleId.unknown_account "unknown or non-customer account" "계좌를 확인할 수 없습니다"
    else if input.from_account_id === input.to_account_id
    then deny RuleId.same_account "from and to accounts must differ" "출금·입금 계좌가 같습니다"
    else if truthy input.actor_customer_id && not (from.customer_id === input.actor_customer_id)
    then deny RuleId.not_owned "from account is not owned by the session customer"
        "세션 고객의 출금 계좌가 아닙니다"
    else elim from.customer_id [
      | none ↦ no_customer
      | some customer_id ↦
          if customer_id === ""
          then no_customer
          else if is_blocked from || is_blocked to
          then deny RuleId.account_frozen
              ("account status frozen/closed (from "
                <> account_status_name from.status
                <> ", to "
                <> account_status_name to.status
                <> ")")
              copy_denied
          else decide_funds db input customer_id to
    ]
  where
    no_customer : PolicyResult
    no_customer = deny RuleId.unknown_account "from account has no customer" "계좌를 확인할 수 없습니다"

unfoldable pub decide : Db → PolicyInput → PolicyResult
decide db input =
    if not (is_positive_int_won input.amount)
    then deny RuleId.invalid_amount "amount must be a positive integer KRW won" "금액이 올바르지 않습니다"
    else elim (get_account db input.from_account_id) [
      | none ↦ unknown
      | some from ↦ elim (get_account db input.to_account_id) [
        | none ↦ unknown
        | some to ↦ decide_known db input from to
      ]
    ]
  where
    unknown : PolicyResult
    unknown = deny RuleId.unknown_account "unknown or non-customer account" "계좌를 확인할 수 없습니다"
