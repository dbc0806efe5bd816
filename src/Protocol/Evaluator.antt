-- ===== src/Protocol/Evaluator.antt =====
-- packages/protocol/src/evaluator.ts: the evaluation of a transfer under a mandate. Amounts are
-- the numbers that BigInt reads from the decimal texts of a validated object, times the
-- milliseconds that Date.parse reads; of a signed object the fields that the evaluator uses.
pub mod Outcomes
use agentic_bank.Common.{ℕ, ◌+◌, Bool, not, ◌&&◌, String, ltb, leb, if◌then◌else◌, ◌===◌, string_eq}
use agentic_bank.Store.Types.{AccountStatus, account_status_eq}

pub record Mandate : Type 0 where
  pub issued_at : ℕ
  pub mandate_id : String
  pub customer_id : String
  pub agent_id : String
  pub from_account_id : String
  pub to_account_id : String
  pub currency : String
  pub max_amount : ℕ
  pub not_before : ℕ
  pub expires_at : ℕ

pub record TransferInstruction : Type 0 where
  pub from_account_id : String
  pub to_account_id : String
  pub currency : String
  pub amount : ℕ

pub record ProposedAction : Type 0 where
  pub issued_at : ℕ
  pub action_id : String
  pub mandate_id : String
  pub customer_id : String
  pub agent_id : String
  pub transfer : TransferInstruction

pub record PolicyArtifact : Type 0 where
  pub daily_cap : ℕ
  pub step_up_threshold : ℕ

pub record DecisionInputSnapshot : Type 0 where
  pub from_account_status : AccountStatus
  pub to_account_status : AccountStatus
  pub from_owner_customer_id : String
  pub to_owner_customer_id : String
  pub spendable_funds : ℕ
  pub daily_spent : ℕ

pub data Outcome : Type 0 where
  allow deny step_up : Outcome

pub data EvaluatorReasonCode : Type 0 where
  policy_allow source_account_not_open destination_account_not_open : EvaluatorReasonCode
  sender_ownership_mismatch insufficient_spendable_funds : EvaluatorReasonCode
  daily_cap_exceeded cross_customer_transfer step_up_required : EvaluatorReasonCode

pub record EvaluatorResult : Type 0 where
  pub outcome : Outcome
  pub reason_code : EvaluatorReasonCode

abbrev denied : EvaluatorReasonCode → EvaluatorResult
denied reason_code = record { outcome = deny; reason_code = reason_code }

unfoldable pub is_action_within_mandate : Mandate → ProposedAction → Bool
is_action_within_mandate mandate action =
    action.mandate_id === mandate.mandate_id
    && action.customer_id === mandate.customer_id
    && action.agent_id === mandate.agent_id
    && action.transfer.from_account_id === mandate.from_account_id
    && action.transfer.to_account_id === mandate.to_account_id
    && action.transfer.currency === mandate.currency
    && leb action.transfer.amount mandate.max_amount

unfoldable pub is_mandate_valid_at_authorization : Mandate → ProposedAction → ℕ → Bool
is_mandate_valid_at_authorization mandate action authorized_at =
    leb mandate.issued_at authorized_at
    && leb mandate.not_before authorized_at
    && ltb authorized_at mandate.expires_at
    && leb action.issued_at authorized_at

unfoldable pub evaluate_krw_transfer :
    Mandate → ProposedAction → PolicyArtifact → DecisionInputSnapshot → EvaluatorResult
evaluate_krw_transfer mandate action policy snapshot =
    let amount = action.transfer.amount in
    if not (snapshot.from_account_status === AccountStatus.opened)
    then denied source_account_not_open
    else if not (snapshot.to_account_status === AccountStatus.opened)
    then denied destination_account_not_open
    else if not (snapshot.from_owner_customer_id === mandate.customer_id)
    then denied sender_ownership_mismatch
    else if ltb snapshot.spendable_funds amount
    then denied insufficient_spendable_funds
    else if ltb policy.daily_cap (snapshot.daily_spent + amount)
    then denied daily_cap_exceeded
    else if not (snapshot.from_owner_customer_id === snapshot.to_owner_customer_id)
    then denied cross_customer_transfer
    else if leb policy.step_up_threshold amount
    then record { outcome = step_up; reason_code = step_up_required }
    else record { outcome = allow; reason_code = policy_allow }
