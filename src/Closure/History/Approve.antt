-- ===== src/Closure/History/Approve.antt =====
-- apps/closure-api/src/service.ts: `approve` and `revokeMandate` as histories of the authorizations
-- and the proofs.
use agentic_bank.Common.{
  ℕ, ◌≡◌, refl, sym, ap, inl, inr, Bool, true, false, ◌||◌, Option, none, some, List, ◌∷◌, [], ◌++◌,
  String, ◌===◌, string_eq, includes, >>=-some, ◌>>=◌, Bool-cases, Option-cases,
}
use agentic_bank.Protocol.State.{
  ProtocolState, ProtocolState_discrete, protocol_state_eq, NegativeTerminalReason, proposed,
  approved, step_up_required, closed,
}
use agentic_bank.Protocol.Evaluator.{is_mandate_valid_at_authorization}
use agentic_bank.Closure.Types.{
  AuthorizationRow, mandate_expired, authorize_value, approval_value, approvals, ClosureDb,
}
use agentic_bank.Closure.Repository.{
  is_mandate_revoked, get_authorization, update_authorization, mark_authorization_closed,
  save_proof, save_idempotency,
}
use agentic_bank.Closure.Service.{
  ServiceHost, ServiceResult, answered, failed, approval_request, close_negative, issue_capsule,
  with_tx,
}
use agentic_bank.Closure.Service.Holds.{keyed-holds, with_tx-holds}
use agentic_bank.Closure.Approve.{
  approval_of, expire_authorization, moved_with, record_approval, approve_authorization,
  approve_keyed, approve, trimmed,
}
use agentic_bank.Closure.History.{
  IsRowOnPath, IsSound, open_path, ClosureReach, here, found_on_path,
}
use agentic_bank.Closure.History.Tables.{
  some_injective, save_proof-Reach, save_idempotency-Reach, update_authorization-Reach,
  mark_authorization_closed-Reach,
}
use agentic_bank.Closure.History.Commit.{expired_path}

stepped_up :
    (state : ProtocolState) (path : List ProtocolState)
    → ((p : List ProtocolState) → open_path state ≡ some p → path ≡ p)
    → state === step_up_required ≡ true
    → open_path state ≡ some path
unfolding ProtocolState_discrete
stepped_up step_up_required path h k = ap (λ p. some p) (sym (h _ refl))
stepped_up _ path h k = absurd (cc k)

module _ (host : ServiceHost) {quiet : Bool} {start db : ClosureDb} (key hash : String)
    (r : ClosureReach quiet start db) where
  expire_authorization-Reach :
      (row : AuthorizationRow) (at : ℕ)
      → open_path row.state ≡ some row.stored.state_path
      → ClosureReach quiet start (expire_authorization host db row key hash at).1
  unfolding expire_authorization close_negative
  expire_authorization-Reach row at on_path =
      let path = row.stored.state_path ++ ProtocolState.expired ∷ closed ∷ [] in
      let proof =
        close_negative host db host.proof_uuid row.stored NegativeTerminalReason.expired path at in
      let value = authorize_value (record {
        decision_id = row.decision_id;
        outcome = row.stored.decision.outcome;
        reason_code = mandate_expired;
        capsule_id = none;
        proof_id = some proof.proof_id;
      }) in
      let keeps = λ (proved : ClosureDb).
        save_idempotency (mark_authorization_closed proved row.decision_id) approvals key hash 422
          value in
      with_tx-holds (λ d. ClosureReach quiet start d) db
        (save_proof db proof.proof_id row.decision_id proof >>= keeps)
        (failed 422 "MANDATE_EXPIRED") r
        (λ after e.
          let (proved, s, k) =
            >>=-some (save_proof db proof.proof_id row.decision_id proof) keeps e in
          save_idempotency-Reach
            (mark_authorization_closed-Reach
              (save_proof-Reach r proof.proof_id row.decision_id proof
                (expired_path row.state row.stored.state_path on_path) s)
              row.decision_id)
            approvals key hash 422 value k)

  moved_with-Reach :
      (o : Option (Bool × ClosureDb)) (go_on : ClosureDb → ServiceResult × ClosureDb)
      → ((b : Bool) (moved : ClosureDb) → o ≡ some (b, moved) → ClosureReach quiet start moved)
      → ((moved : ClosureDb)
          → ClosureReach quiet start moved
          → ClosureReach quiet start (go_on moved).1)
      → ClosureReach quiet start (moved_with db o go_on).1
  moved_with-Reach none go_on h k = r
  moved_with-Reach (some (false, same)) go_on h k = h false same refl
  moved_with-Reach (some (true, moved)) go_on h k = k moved (h true moved refl)

  record_approval-Reach :
      (row : AuthorizationRow) (approver_id : String) (now : ℕ)
      → ClosureReach quiet start (record_approval host db row key hash approver_id now).1
  unfolding record_approval includes ProtocolState_discrete
  record_approval-Reach row approver_id now =
      let approval = approval_of host row.stored approver_id now in
      let capsule = issue_capsule host row.stored.decision now in
      let stored = record row.stored {
        approval = some approval;
        capsule = some capsule;
        state_path = proposed ∷ step_up_required ∷ approved ∷ [];
      } in
      let value = approval_value row.decision_id approval.approval_id capsule.capsule_id in
      moved_with-Reach
        (update_authorization db row.decision_id step_up_required row.state_version approved
          (some capsule.capsule_id) stored)
        (λ moved.
          with_tx moved (save_idempotency moved approvals key hash 201 value)
            (answered 201 false value))
        (λ b moved e.
          update_authorization-Reach r row.decision_id step_up_required row.state_version approved
            (some capsule.capsule_id) stored b (λ p x. some_injective x) (λ x. absurd (cc x)) e)
        (λ moved q.
          with_tx-holds (λ d. ClosureReach quiet start d) moved
            (save_idempotency moved approvals key hash 201 value) (answered 201 false value) q
            (λ after e. save_idempotency-Reach q approvals key hash 201 value e))

  approve_authorization-Reach :
      (row : AuthorizationRow) (approver_id : String)
      → IsRowOnPath row
      → ClosureReach quiet start (approve_authorization host db row key hash approver_id).1
  unfolding approve_authorization
  approve_authorization-Reach row approver_id on_path =
      elim (Bool-cases (row.state === step_up_required)) [
        | inr other ↦ rw (approve_authorization, other) r
        | inl waits ↦ elim (Bool-cases (is_mandate_revoked db row.stored.mandate.mandate_id)) [
          | inl revoked ↦ rw (approve_authorization, waits, revoked) r
          | inr valid ↦
              elim (Bool-cases (
                approver_id === row.stored.action.customer_id
                || approver_id === row.stored.action.agent_id)) [
                  | inl self ↦ rw (approve_authorization, waits, valid, self) r
                  | inr apart ↦ elim (Bool-cases (approver_id === "syn_operator")) [
                    | inr stranger ↦ rw (approve_authorization, waits, valid, apart, stranger) r
                    | inl operator ↦
                        elim (Bool-cases (
                          is_mandate_valid_at_authorization row.stored.mandate row.stored.action
                            host.now)) [
                              | inl timely ↦
                                  rw (approve_authorization, waits, valid, apart, operator, timely)
                                    (record_approval-Reach row approver_id host.now)
                              | inr late ↦
                                  rw (approve_authorization, waits, valid, apart, operator, late)
                                    (expire_authorization-Reach row host.now
                                      (stepped_up row.state row.stored.state_path on_path waits))
                            ]
                  ]
                ]
        ]
      ]

-- An approval is a history.
pub approve-Reach :
    (host : ServiceHost) (db : ClosureDb) (decision_id : String)
    (idempotency_key approver_id : Option String)
    → IsSound db
    → ClosureReach false db (approve host db decision_id idempotency_key approver_id).1
unfolding approve approve_keyed
approve-Reach host db decision_id idempotency_key approver_id sound =
    keyed-holds (λ d. ClosureReach false db d) host db approvals idempotency_key
      (approval_request decision_id (trimmed approver_id))
      (approve_keyed host db decision_id (trimmed approver_id)) here
      (λ key hash. elim (Option-cases (get_authorization db decision_id)) [
        | inl missing ↦ rw (approve_keyed, missing) here
        | inr (row, there) ↦
            rw (approve_keyed, there)
              (approve_authorization-Reach host key hash here row (trimmed approver_id)
                (found_on_path db decision_id row sound there))
      ])
