-- ===== src/Closure/Approve.antt =====
-- apps/closure-api/src/service.ts: `approve`, `expireAuthorization` and `revokeMandate`.
use agentic_bank.Common.{
  ℕ, ◌+◌, ◌*◌, Bool, true, false, not, ◌||◌, Option, none, some, List, [], ◌∷◌, ◌++◌, String,
  if◌then◌else◌, ◌===◌, string_eq, trim, is_some, ◌>>=◌, includes,
}
use Prim.Native.String.{◌++◌ as ◌<>◌}
use agentic_bank.Protocol.State.{
  ProtocolState, NegativeTerminalReason, protocol_state_eq, proposed, authorized, approved,
  step_up_required, execution_intent_recorded, execution_unknown, closed,
}
use agentic_bank.Protocol.Evaluator.{is_mandate_valid_at_authorization}
use agentic_bank.Closure.Types.{
  AuthorizationRecord, AuthorizationRow, StepUpApproval, mandate_expired, authorize_value,
  approval_value, revocation_value, approvals, revocations, ClosureDb,
}
use agentic_bank.Closure.Repository.{
  get_mandate, is_mandate_revoked, get_authorization, list_authorizations_by_mandate,
  update_authorization, mark_authorization_closed, get_proof_by_decision, save_proof,
  save_idempotency, revoke_mandate as persist_mandate_revocation,
}
use agentic_bank.Closure.Service.{
  ServiceHost, ServiceResult, answered, failed, thrown, approval_request, revocation_request, keyed,
  with_tx, minute_ms, issue_capsule, close_negative,
}

abbrev pub intended_states : List ProtocolState
intended_states = execution_intent_recorded ∷ execution_unknown ∷ []

abbrev pub open_states : List ProtocolState
open_states = authorized ∷ step_up_required ∷ approved ∷ []

unfoldable pub approval_of : ServiceHost → AuthorizationRecord → String → ℕ → StepUpApproval
approval_of host stored approver_id now = record {
  issued_at = now;
  approval_id = "approval-" <> host.approval_uuid;
  approved_effect_hash = stored.decision.approved_effect_hash;
  requester_id = stored.action.customer_id;
  approver_id = approver_id;
  not_before = now;
  expires_at = now + 10 * minute_ms;
}

unfoldable pub expire_authorization :
    ServiceHost → ClosureDb → AuthorizationRow → String → String → ℕ → ServiceResult × ClosureDb
expire_authorization host db row key hash closed_at =
    let proof =
      close_negative host db host.proof_uuid row.stored NegativeTerminalReason.expired
        (row.stored.state_path ++ ProtocolState.expired ∷ closed ∷ []) closed_at in
    with_tx db
      (save_proof db proof.proof_id row.decision_id proof >>= λ proved.
        save_idempotency (mark_authorization_closed proved row.decision_id) approvals key hash 422 (
          authorize_value (record {
            decision_id = row.decision_id;
            outcome = row.stored.decision.outcome;
            reason_code = mandate_expired;
            capsule_id = none;
            proof_id = some proof.proof_id;
          })))
      (failed 422 "MANDATE_EXPIRED")

abbrev pub moved_with :
    ClosureDb
    → Option (Bool × ClosureDb)
    → (ClosureDb → ServiceResult × ClosureDb)
    → ServiceResult × ClosureDb
moved_with db none go_on = (thrown, db)
moved_with db (some (false, same)) go_on = (failed 409 "STATE_CONFLICT", same)
moved_with db (some (true, moved)) go_on = go_on moved

-- The answer is kept after the row has moved, in a statement of its own.
unfoldable pub record_approval :
    ServiceHost
    → ClosureDb
    → AuthorizationRow
    → String
    → String
    → String
    → ℕ
    → ServiceResult × ClosureDb
record_approval host db row key hash approver_id now =
    let approval = approval_of host row.stored approver_id now in
    let capsule = issue_capsule host row.stored.decision now in
    let value = approval_value row.decision_id approval.approval_id capsule.capsule_id in
    moved_with db
      (update_authorization db row.decision_id step_up_required row.state_version approved
        (some capsule.capsule_id)
        (record row.stored {
          approval = some approval;
          capsule = some capsule;
          state_path = proposed ∷ step_up_required ∷ approved ∷ [];
        }))
      (λ moved.
        with_tx moved (save_idempotency moved approvals key hash 201 value)
          (answered 201 false value))

unfoldable pub approve_authorization :
    ServiceHost
    → ClosureDb
    → AuthorizationRow
    → String
    → String
    → String
    → ServiceResult × ClosureDb
unfolding record_approval expire_authorization
approve_authorization host db row key hash approver_id =
    if not (row.state === step_up_required)
    then (failed 422 "STEP_UP_NOT_PENDING", db)
    else if is_mandate_revoked db row.stored.mandate.mandate_id
    then (failed 422 "MANDATE_REVOKED", db)
    else if approver_id === row.stored.action.customer_id
        || approver_id === row.stored.action.agent_id
    then (failed 422 "SEPARATION_FAILURE", db)
    else if not (approver_id === "syn_operator")
    then (failed 400 "UNKNOWN_APPROVER", db)
    else if not (is_mandate_valid_at_authorization row.stored.mandate row.stored.action host.now)
    then expire_authorization host db row key hash host.now
    else record_approval host db row key hash approver_id host.now

abbrev pub trimmed : Option String → String
trimmed none = ""
trimmed (some approver_id) = trim approver_id

unfoldable pub approve_keyed :
    ServiceHost → ClosureDb → String → String → String → String → ServiceResult × ClosureDb
unfolding approve_authorization
approve_keyed host db decision_id approver_id key hash = elim (get_authorization db decision_id) [
  | none ↦ (failed 404 "AUTHORIZATION_NOT_FOUND", db)
  | some row ↦ approve_authorization host db row key hash approver_id
]

unfoldable pub approve :
    ServiceHost → ClosureDb → String → Option String → Option String → ServiceResult × ClosureDb
unfolding approve_keyed
approve host db decision_id idempotency_key approver_id =
    keyed host db approvals idempotency_key (approval_request decision_id (trimmed approver_id))
      (approve_keyed host db decision_id (trimmed approver_id))

abbrev pub any_intended : List AuthorizationRow → Bool
any_intended [] = false
any_intended (row ∷ rows) = includes intended_states row.state || any_intended rows

-- Each authorization that is open and has no proof is closed with one; the random ids are drawn in
-- turn.
unfoldable pub revoke_each :
    ServiceHost
    → (ℕ → String)
    → ClosureDb
    → List AuthorizationRow
    → ℕ
    → ℕ
    → Option (List String × ClosureDb)
revoke_each host proof_uuids db [] n revoked_at = some ([], db)
revoke_each host proof_uuids db (row ∷ rows) n revoked_at =
    elim (not (includes open_states row.state)
      || is_some (get_proof_by_decision db row.decision_id)) [
        | true ↦ revoke_each host proof_uuids db rows n revoked_at
        | false ↦
            let proof =
              close_negative host db (proof_uuids n) row.stored NegativeTerminalReason.revoked
                (row.stored.state_path ++ ProtocolState.revoked ∷ closed ∷ []) revoked_at in
            save_proof db proof.proof_id row.decision_id proof >>= λ proved.
            revoke_each host proof_uuids (mark_authorization_closed proved row.decision_id) rows
              (n + 1) revoked_at
            >>= λ rest. some (proof.proof_id ∷ rest.0, rest.1)
      ]

abbrev pub revoked_or_thrown :
    ClosureDb
    → String
    → String
    → String
    → Option (List String × ClosureDb)
    → ServiceResult × ClosureDb
revoked_or_thrown db mandate_id key hash none = (thrown, db)
revoked_or_thrown db mandate_id key hash (some (proof_ids, after)) =
    with_tx db
      (save_idempotency after revocations key hash 200 (revocation_value mandate_id proof_ids))
      (answered 200 false (revocation_value mandate_id proof_ids))

unfoldable pub revoke_open :
    ServiceHost
    → (ℕ → String)
    → ClosureDb
    → String
    → String
    → String
    → List AuthorizationRow
    → ServiceResult × ClosureDb
unfolding revoke_each
revoke_open host proof_uuids db mandate_id key hash rows =
    revoked_or_thrown db mandate_id key hash (
      revoke_each host proof_uuids (persist_mandate_revocation db mandate_id host.now) rows 0
        host.now)

unfoldable pub revoke_keyed :
    ServiceHost → (ℕ → String) → ClosureDb → String → String → String → ServiceResult × ClosureDb
unfolding revoke_open
revoke_keyed host proof_uuids db mandate_id key hash = elim (get_mandate db mandate_id) [
  | none ↦ (failed 404 "MANDATE_NOT_FOUND", db)
  | some _ ↦
      if any_intended (list_authorizations_by_mandate db mandate_id)
      then (failed 409 "ALREADY_INTENDED", db)
      else revoke_open host proof_uuids db mandate_id key hash
          (list_authorizations_by_mandate db mandate_id)
]

unfoldable pub revoke_mandate :
    ServiceHost → (ℕ → String) → ClosureDb → String → Option String → ServiceResult × ClosureDb
unfolding revoke_keyed
revoke_mandate host proof_uuids db mandate_id idempotency_key =
    keyed host db revocations idempotency_key (revocation_request mandate_id)
      (revoke_keyed host proof_uuids db mandate_id)
