-- ===== src/Closure/Authorize.antt =====
-- apps/closure-api/src/service.ts: `authorize`.
use agentic_bank.Common.{
  ℕ, false, not, Option, none, some, List, [], ◌∷◌, String, if◌then◌else◌, string_eq, ◌>>=◌,
}
use Prim.Native.String.{◌++◌ as ◌<>◌}
use agentic_bank.Store.Args.{Json}
use agentic_bank.Protocol.State.{
  ProtocolState, NegativeTerminalReason, proposed, authorized, step_up_required, closed,
}
use agentic_bank.Protocol.Evaluator.{
  Mandate, ProposedAction, DecisionInputSnapshot, EvaluatorResult, allow, deny, step_up,
  is_action_within_mandate, is_mandate_valid_at_authorization, evaluate_krw_transfer,
}
use agentic_bank.Closure.Types.{
  AuthorizationDecision, AuthorizationRecord, ReasonCode, evaluated, mandate_expired,
  authorize_value, authorizations, ClosureDb,
}
use agentic_bank.Closure.Repository.{
  get_mandate, is_mandate_revoked, save_authorization, save_proof, save_idempotency,
}
use agentic_bank.Closure.Register.{text_or}
use agentic_bank.Closure.Service.{
  ServiceHost, ServiceResult, answered, failed, thrown, authorize_request, keyed, observed_now,
  with_tx, service_policy, issue_capsule, close_negative,
}
use agentic_bank.Closure.Snapshot.{
  LiveAccounts, unavailable, out_of_range, live, extract_live_account_snapshot,
}

action_of : ServiceHost → Mandate → ℕ → ℕ → ProposedAction
action_of host mandate amount now = record {
  issued_at = now;
  action_id = "action-" <> host.action_uuid;
  mandate_id = mandate.mandate_id;
  customer_id = mandate.customer_id;
  agent_id = mandate.agent_id;
  transfer = record {
    from_account_id = mandate.from_account_id;
    to_account_id = mandate.to_account_id;
    currency = "KRW";
    amount = amount;
  };
}

-- A denial approves no effect.
unfoldable pub decision_of :
    ServiceHost → ProposedAction → EvaluatorResult → ℕ → AuthorizationDecision
decision_of host action result now = record {
  issued_at = now;
  decision_id = "decision-" <> host.decision_uuid;
  outcome = result.outcome;
  reason_code = result.reason_code;
  approved_effect_hash = elim result.outcome [
    | deny ↦ none
    | allow ↦ some (host.effect_hash action)
    | step_up ↦ some (host.effect_hash action)
  ];
  authorized_at = now;
}

abbrev pub record_of :
    Mandate → ProposedAction → DecisionInputSnapshot → AuthorizationDecision → AuthorizationRecord
record_of mandate action accounts decision = record {
  mandate = mandate;
  action = action;
  decision_input = accounts;
  decision = decision;
  capsule = none;
  approval = none;
  state_path = proposed ∷ [];
}

-- An authorization that ends at once: its proof, its closed row and the answer.
unfoldable pub close_refused :
    ServiceHost
    → ClosureDb
    → String
    → String
    → AuthorizationRecord
    → NegativeTerminalReason
    → List ProtocolState
    → ReasonCode
    → ℕ
    → ServiceResult × ClosureDb
close_refused host db key hash stored reason path reason_code now =
    let proof = close_negative host db host.proof_uuid stored reason path now in
    let decision_id = stored.decision.decision_id in
    let value = authorize_value (record {
      decision_id = decision_id;
      outcome = stored.decision.outcome;
      reason_code = reason_code;
      capsule_id = none;
      proof_id = some proof.proof_id;
    }) in
    with_tx db
      (save_authorization db decision_id stored.mandate.mandate_id stored.action.action_id none
          closed (record stored { state_path = path })
        >>= (λ saved. save_proof saved proof.proof_id decision_id proof)
        >>= (λ proved. save_idempotency proved authorizations key hash 422 value))
      (answered 422 false value)

-- An authorization that stays open, for an approval or for a commit.
unfoldable pub open_authorization :
    ClosureDb
    → String
    → String
    → AuthorizationRecord
    → ProtocolState
    → Option String
    → ℕ
    → ServiceResult × ClosureDb
open_authorization db key hash stored state capsule_id status =
    let value = authorize_value (record {
      decision_id = stored.decision.decision_id;
      outcome = stored.decision.outcome;
      reason_code = evaluated stored.decision.reason_code;
      capsule_id = capsule_id;
      proof_id = none;
    }) in
    with_tx db
      (save_authorization db stored.decision.decision_id stored.mandate.mandate_id
          stored.action.action_id capsule_id state stored
        >>= (λ saved. save_idempotency saved authorizations key hash status value))
      (answered status false value)

-- What becomes of a decision.
unfoldable pub authorize_decided :
    ServiceHost → ClosureDb → String → String → AuthorizationRecord → ℕ → ServiceResult × ClosureDb
unfolding close_refused open_authorization
authorize_decided host db key hash stored now =
    if not (is_mandate_valid_at_authorization stored.mandate stored.action now)
    then close_refused host db key hash stored NegativeTerminalReason.expired
        (proposed ∷ ProtocolState.expired ∷ closed ∷ []) mandate_expired now
    else elim stored.decision.outcome [
      | deny ↦
          close_refused host db key hash stored NegativeTerminalReason.authorization_denied
            (proposed ∷ ProtocolState.authorization_denied ∷ closed ∷ [])
            (evaluated stored.decision.reason_code) now
      | step_up ↦
          open_authorization db key hash
            (record stored { state_path = proposed ∷ step_up_required ∷ [] }) step_up_required none
            202
      | allow ↦
          let capsule = issue_capsule host stored.decision now in
          open_authorization db key hash
            (record stored { capsule = some capsule; state_path = proposed ∷ authorized ∷ [] })
            authorized (some capsule.capsule_id) 201
    ]

unfoldable pub authorize_live :
    ServiceHost
    → ClosureDb
    → String
    → String
    → Mandate
    → ProposedAction
    → ℕ
    → LiveAccounts
    → ServiceResult × ClosureDb
unfolding authorize_decided decision_of
authorize_live host db key hash mandate action now unavailable = (failed 400 "UNKNOWN_ACCOUNT", db)
authorize_live host db key hash mandate action now out_of_range = (thrown, db)
authorize_live host db key hash mandate action now (live accounts) =
    authorize_decided host db key hash
      (record_of mandate action accounts (
        decision_of host action (evaluate_krw_transfer mandate action service_policy accounts) now))
      now

unfoldable pub authorize_action :
    ServiceHost
    → ClosureDb
    → String
    → String
    → Mandate
    → ProposedAction
    → ℕ
    → ServiceResult × ClosureDb
unfolding authorize_live
authorize_action host db key hash mandate action now =
    if not (host.valid_action action)
    then (failed 400 "MALFORMED_ACTION", db)
    else if not (is_action_within_mandate mandate action)
    then (failed 422 "OUT_OF_SCOPE", db)
    else authorize_live host db key hash mandate action now (
        extract_live_account_snapshot db.core action.transfer.from_account_id
          action.transfer.to_account_id now)

unfoldable pub authorize_valued :
    ServiceHost → ClosureDb → String → String → Mandate → ℕ → Option ℕ → ServiceResult × ClosureDb
unfolding authorize_action action_of
authorize_valued host db key hash mandate now none = (failed 400 "MALFORMED_ACTION", db)
authorize_valued host db key hash mandate now (some won) =
    authorize_action host db key hash mandate (action_of host mandate won now) now

unfoldable pub authorize_keyed :
    ServiceHost → ClosureDb → String → Json → String → String → ServiceResult × ClosureDb
unfolding authorize_valued
authorize_keyed host db mandate_id amount key hash = elim (get_mandate db mandate_id) [
  | none ↦ (failed 404 "MANDATE_NOT_FOUND", db)
  | some mandate ↦
      if is_mandate_revoked db mandate_id
      then (failed 422 "MANDATE_REVOKED", db)
      else observed_now host db (λ now observed.
        authorize_valued host observed key hash mandate now (host.amount_of (text_or "" amount)))
]

unfoldable pub authorize :
    ServiceHost → ClosureDb → String → Option String → Json → ServiceResult × ClosureDb
unfolding authorize_keyed
authorize host db mandate_id idempotency_key amount =
    keyed host db authorizations idempotency_key (authorize_request mandate_id amount)
      (authorize_keyed host db mandate_id amount)
