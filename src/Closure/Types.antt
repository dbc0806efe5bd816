-- ===== src/Closure/Types.antt =====
-- The objects of packages/protocol/src/types.ts as apps/closure-api stores them, and the tables of
-- repository.ts beside the core's. An envelope is its body; of a body the keys, the pin and the
-- hashes that the service writes and never reads again are left out. Times are milliseconds.
use agentic_bank.Common.{ℕ, String, Option, List}
use agentic_bank.Store.{Db}
use agentic_bank.Protocol.State.{ProtocolState, NegativeTerminalReason}
use agentic_bank.Protocol.Evaluator.{
  Mandate, ProposedAction, DecisionInputSnapshot, Outcome, EvaluatorReasonCode,
}

pub record AuthorizationDecision : Type 0 where
  pub issued_at : ℕ
  pub decision_id : String
  pub outcome : Outcome
  pub reason_code : EvaluatorReasonCode
  pub approved_effect_hash : Option String
  pub authorized_at : ℕ

pub record StepUpApproval : Type 0 where
  pub issued_at : ℕ
  pub approval_id : String
  pub approved_effect_hash : Option String
  pub requester_id : String
  pub approver_id : String
  pub not_before : ℕ
  pub expires_at : ℕ

pub record ExecutionCapsule : Type 0 where
  pub issued_at : ℕ
  pub capsule_id : String
  pub approved_effect_hash : Option String
  pub not_before : ℕ
  pub expires_at : ℕ

pub data ObservationStatus : Type 0 where
  posted absent : ObservationStatus

pub record LedgerObservation : Type 0 where
  pub issued_at : ℕ
  pub status : ObservationStatus
  pub mutation_count : ℕ
  pub action_id : String
  pub ledger_sequence : ℕ
  pub observed_at : ℕ

-- The effect of a transfer is derived from its action.
pub record AuthorizationRecord : Type 0 where
  pub mandate : Mandate
  pub action : ProposedAction
  pub decision_input : DecisionInputSnapshot
  pub decision : AuthorizationDecision
  pub capsule : Option ExecutionCapsule
  pub approval : Option StepUpApproval
  pub state_path : List ProtocolState

-- A proof of either kind: one without a terminal reason proves an execution, and shows the capsule
-- and when it was consumed.
pub record StoredProof : Type 0 where
  pub proof_id : String
  pub terminal_reason : Option NegativeTerminalReason
  pub mandate : Mandate
  pub action : ProposedAction
  pub decision_input : DecisionInputSnapshot
  pub decision : AuthorizationDecision
  pub step_up_approval : Option StepUpApproval
  pub capsule : Option ExecutionCapsule
  pub consumed_at : Option ℕ
  pub ledger_observation : LedgerObservation
  pub state_path : List ProtocolState
  pub closed_at : ℕ

-- `mandate_expired` is the reason of an expired mandate, beside those of the evaluator.
pub data ReasonCode : Type 0 where
  evaluated : EvaluatorReasonCode → ReasonCode
  mandate_expired : ReasonCode

pub record AuthorizeValue : Type 0 where
  pub decision_id : String
  pub outcome : Outcome
  pub reason_code : ReasonCode
  pub capsule_id : Option String
  pub proof_id : Option String

-- The values that the service answers with, and keeps for a replay.
pub data Value : Type 0 where
  mandate_value : String → Mandate → Value
  authorize_value : AuthorizeValue → Value
  approval_value : String → String → String → Value
  revocation_value : String → List String → Value
  proof_value : String → StoredProof → Value
  unknown_value : String → String → Value

pub data Scope : Type 0 where
  mandates authorizations approvals revocations commits : Scope

unfoldable pub Scope_discrete : (a b : Scope) → Dec (Path Scope a b)
Scope_discrete = hlevel

pub data JobState : Type 0 where
  queued leased unresolved done : JobState

unfoldable pub JobState_discrete : (a b : JobState) → Dec (Path JobState a b)
JobState_discrete = hlevel

pub record IdempotencyRow : Type 0 where
  pub scope : Scope
  pub idempotency_key : String
  pub request_hash : String
  pub status : ℕ
  pub response : Value

pub record MandateRow : Type 0 where
  pub mandate_id : String
  pub customer_id : String
  pub revoked_at : Option ℕ
  pub envelope : Mandate

-- `stored` is the column `record_json`.
pub record AuthorizationRow : Type 0 where
  pub decision_id : String
  pub mandate_id : String
  pub action_id : String
  pub capsule_id : Option String
  pub state : ProtocolState
  pub state_version : ℕ
  pub stored : AuthorizationRecord

pub record Consumption : Type 0 where
  pub capsule_id : String
  pub consumed_at : ℕ

pub record ProofRow : Type 0 where
  pub proof_id : String
  pub decision_id : String
  pub proof : StoredProof

pub record ReconciliationJob : Type 0 where
  pub job_id : String
  pub decision_id : String
  pub state : JobState
  pub attempts : ℕ
  pub max_attempts : ℕ
  pub next_attempt_ms : ℕ
  pub lease_owner : Option String
  pub lease_until_ms : Option ℕ
  pub last_error : Option String

pub record ClosureDb : Type 0 where
  pub core : Db
  pub idempotency : List IdempotencyRow
  pub mandates : List MandateRow
  pub authorizations : List AuthorizationRow
  pub consumptions : List Consumption
  pub proofs : List ProofRow
  pub last_observed_ms : Option ℕ
  pub jobs : List ReconciliationJob
