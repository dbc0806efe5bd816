-- ===== src/Policy/Approval.antt =====
-- packages/core/src/policy.ts, `decide`: when money may move, described apart from the ladder of
-- tests.
use agentic_bank.Common.{
  ◌≡◌, ◌≢◌, ◌⊎◌, ◌↔◌, refl, inl, inr, none, some, String, ℤ, pos, ◌+ℤ◌, ◌-ℤ◌, ◌≤ℤ◌, ◌<ℤ◌, int,
  non_int, is_positive_int_won, Number, arith, Option-cases,
}
use agentic_bank.Store.{Account, Db}
use agentic_bank.Store.Types.{Product, AccountStatus, Decision}
use agentic_bank.Ledger.{get_account, available_balance, pending_out}
use agentic_bank.Policy.{
  PolicyInput, daily_outbound_cap_krw, dual_control_amount_krw, customer_outbound_on_seoul_day,
  decide, decide_known, decide_funds,
}

-- Two different open customer accounts, the first one owned by the session's customer.
pub record IsPermitted (input : PolicyInput) (from to : Account) (customer_id : String)
    : Type 0 where
  pub from_customer : from.product ≢ Product.house
  pub to_customer : to.product ≢ Product.house
  pub distinct : input.from_account_id ≢ input.to_account_id
  pub owned :
      (input.actor_customer_id ≡ none)
      ⊎ ((input.actor_customer_id ≡ some "") ⊎ (from.customer_id ≡ input.actor_customer_id))
  pub has_owner : from.customer_id ≡ some customer_id
  pub named : customer_id ≢ ""
  pub from_open : from.status ≡ AccountStatus.opened
  pub to_open : to.status ≡ AccountStatus.opened

-- A transfer about which only the money is in question.
pub record Eligible (db : Db) (input : PolicyInput) : Type 0 where
  pub from : Account
  pub to : Account
  pub customer_id : String
  pub amount : ℤ
  pub whole : input.amount ≡ int amount
  pub positive : pos 0 <ℤ amount
  pub from_known : get_account db input.from_account_id ≡ some from
  pub to_known : get_account db input.to_account_id ≡ some to
  pub permitted : IsPermitted input from to customer_id

-- Enough available funds beside the pending ones.
abbrev pub IsFunded : Db → PolicyInput → ℤ → Type 0
IsFunded db input amount =
    amount ≤ℤ available_balance db input.from_account_id -ℤ pending_out db input.from_account_id

-- Room under the customer's cap of the Seoul day.
abbrev pub IsCapped : Db → PolicyInput → String → ℤ → Type 0
IsCapped db input customer_id amount =
    customer_outbound_on_seoul_day db customer_id input.now +ℤ amount ≤ℤ daily_outbound_cap_krw

decide_known_cases :
    (db : Db) (input : PolicyInput) (from to : Account)
    → ((decide_known db input from to).decision ≡ Decision.deny_policy)
      ⊎ ((c : String) × IsPermitted input from to c
          × (decide_known db input from to ≡ decide_funds db input c to))
unfolding decide_known
decide_known_cases db input from to = elim (Option-cases from.customer_id) [
  | inl no_owner ↦ inl (ground arith)
  | inr (c, owner) ↦ owned_cases c owner
]
  where
    owned_cases :
        (c : String)
        → from.customer_id ≡ some c
        → ((decide_known db input from to).decision ≡ Decision.deny_policy)
          ⊎ ((c' : String) × IsPermitted input from to c'
              × (decide_known db input from to ≡ decide_funds db input c' to))
    owned_cases c owner =
        let split : ((decide_known db input from to).decision ≡ Decision.deny_policy)
            ⊎ (IsPermitted input from to c
                × (decide_known db input from to ≡ decide_funds db input c to)) =
          ground arith in
        elim split [ inl d ↦ inl d | inr (p, e) ↦ inr (c, p, e) ]

IsPermitted-decide_known :
    (db : Db) (input : PolicyInput) (from to : Account) (c : String)
    → IsPermitted input from to c
    → decide_known db input from to ≡ decide_funds db input c to
unfolding decide_known
IsPermitted-decide_known db input from to c p = ground arith

-- Either the policy denies a transfer outright, or it is eligible and the money decides.
abbrev Outcome : Db → PolicyInput → Type 0
Outcome db input =
    ((decide db input).decision ≡ Decision.deny_policy)
    ⊎ ((p : Eligible db input) × (decide db input ≡ decide_funds db input p.customer_id p.to))

decide_whole_cases :
    (db : Db) (input : PolicyInput) (amount : ℤ) (from to : Account)
    → input.amount ≡ int amount
    → pos 0 <ℤ amount
    → get_account db input.from_account_id ≡ some from
    → get_account db input.to_account_id ≡ some to
    → Outcome db input
unfolding decide is_positive_int_won
decide_whole_cases db input amount from to whole positive from_known to_known =
    elim (decide_known_cases db input from to) [
      | inl denied ↦ inl (ground arith)
      | inr (c, permitted, same) ↦ inr (eligible c permitted, ground arith)
    ]
  where
    eligible : (c : String) → IsPermitted input from to c → Eligible db input
    eligible c permitted = record {
      from = from;
      to = to;
      customer_id = c;
      amount = amount;
      whole = whole;
      positive = positive;
      from_known = from_known;
      to_known = to_known;
      permitted = permitted;
    }

decide_number_cases :
    (db : Db) (input : PolicyInput) (n : Number) → input.amount ≡ n → Outcome db input
unfolding decide is_positive_int_won
decide_number_cases db input (non_int s) e = inl (ground arith)
decide_number_cases db input (int amount) e =
    elim (Option-cases (get_account db input.from_account_id)) [
      | inl missing ↦ inl (ground arith)
      | inr (from, from_known) ↦ elim (Option-cases (get_account db input.to_account_id)) [
        | inl missing ↦ inl (ground arith)
        | inr (to, to_known) ↦
            let sign : ((decide db input).decision ≡ Decision.deny_policy) ⊎ (pos 0 <ℤ amount) =
              sign_cases in
            elim sign [
              | inl denied ↦ inl denied
              | inr positive ↦
                  decide_whole_cases db input amount from to e positive from_known to_known
            ]
      ]
    ]
  where
    sign_cases : ((decide db input).decision ≡ Decision.deny_policy) ⊎ (pos 0 <ℤ amount)
    sign_cases = ground arith

pub decide_cases : (db : Db) (input : PolicyInput) → Outcome db input
decide_cases db input = decide_number_cases db input input.amount refl

pub Eligible-decide :
    (db : Db) (input : PolicyInput) (p : Eligible db input)
    → decide db input ≡ decide_funds db input p.customer_id p.to
unfolding decide is_positive_int_won
Eligible-decide db input p =
    ground (arith, IsPermitted-decide_known db input p.from p.to p.customer_id p.permitted)

decide_funds-ne-deny_policy :
    (db : Db) (input : PolicyInput) (c : String) (to : Account)
    → (decide_funds db input c to).decision ≢ Decision.deny_policy
unfolding decide_funds
decide_funds-ne-deny_policy db input c to = ground arith

-- The policy denies a transfer outright exactly when it is not eligible: the amount is no positive
-- integer, an account is unknown, of the house, frozen or closed, the two accounts are one, or the
-- source is not the session customer's.
pub decide-deny_policy :
    (db : Db) (input : PolicyInput)
    → ((decide db input).decision ≡ Decision.deny_policy) ↔ (¬ Eligible db input)
decide-deny_policy db input = (
  λ d p.
      decide_funds-ne-deny_policy db input p.customer_id p.to
        (ground (arith, Eligible-decide db input p)),
  λ not_eligible. elim (decide_cases db input) [ inl d ↦ d | inr (p, _) ↦ absurd (not_eligible p) ],
)

-- The outcome for an eligible transfer, decided in the order funds, daily cap, dual control: not
-- enough spendable funds; funds, but no room under the cap; both, but another customer's account
-- or at least 1,000,000 won; all that and the same customer below 1,000,000 won.
pub decide_outcomes :
    (db : Db) (input : PolicyInput) (p : Eligible db input)
    → let d = (decide db input).decision in
      let funded = IsFunded db input p.amount in
      let capped = IsCapped db input p.customer_id p.amount in
      ((d ≡ Decision.deny_nsf) ↔ (¬ funded))
      × ((d ≡ Decision.deny_limit) ↔ (funded × (¬ capped)))
      × ((d ≡ Decision.dual_control) ↔ (
          funded
          × capped
          × ((some p.customer_id ≢ p.to.customer_id) ⊎ (dual_control_amount_krw ≤ℤ p.amount))))
      × ((d ≡ Decision.allow) ↔ (
          funded
          × capped
          × (some p.customer_id ≡ p.to.customer_id)
          × (p.amount <ℤ dual_control_amount_krw)))
unfolding decide_funds
decide_outcomes db input p = rw (Eligible-decide db input p) (
  (λ h. ground arith, λ h. ground arith),
  (λ h. ground arith, λ h. ground arith),
  (λ h. ground arith, λ h. ground arith),
  (λ h. ground arith, λ h. ground arith),
)
