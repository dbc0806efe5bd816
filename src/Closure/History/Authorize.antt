-- ===== src/Closure/History/Authorize.antt =====
-- apps/closure-api/src/service.ts: `authorize` as a history of the
-- authorizations and the proofs.
use agentic_bank.Common.{
  Bool, ℕ, ◌≡◌, refl, inl, inr, true, false, Option, none, some, List, ◌∷◌, [], String, string_eq,
  includes, >>=-some, ◌>>=◌, Bool-cases, Option-cases, Option_discrete,
}
use agentic_bank.Store.Args.{Json}
use agentic_bank.Protocol.State.{
  ProtocolState, ProtocolState_discrete, NegativeTerminalReason, proposed, authorized,
  step_up_required, closed, is_negative_closed_path, is_successful_state_path, is_legal_state_path,
  every_step, is_legal_state_transition, legal_state_transitions, matches_path,
}
use agentic_bank.Protocol.Evaluator.{
  Mandate, ProposedAction, Outcome, allow, deny, step_up, is_mandate_valid_at_authorization,
  is_action_within_mandate, evaluate_krw_transfer,
}
use agentic_bank.Closure.Types.{
  AuthorizationRecord, ReasonCode, evaluated, mandate_expired, authorize_value, authorizations,
  ClosureDb,
}
use agentic_bank.Closure.Repository.{
  get_mandate, is_mandate_revoked, save_authorization, save_proof, save_idempotency,
}
use agentic_bank.Closure.Service.{
  ServiceHost, answered, authorize_request, close_negative, issue_capsule, service_policy,
}
use agentic_bank.Closure.Snapshot.{LiveAccounts, unavailable, out_of_range, live}
use agentic_bank.Closure.Service.Holds.{keyed-holds, with_tx-holds, observed_now-holds, at_time}
use agentic_bank.Closure.Authorize.{
  close_refused, open_authorization, authorize_decided, authorize_live, authorize_action,
  authorize_valued, authorize_keyed, authorize, record_of, decision_of,
}
use agentic_bank.Closure.Register.{text_or}
use agentic_bank.Closure.History.{IsOnPath, elsewhere, ClosureReach, here, next}
use agentic_bank.Closure.History.Tables.{
  some_injective, save_authorization-Reach, save_proof-Reach, save_idempotency-Reach,
}

module _ (host : ServiceHost) {quiet : Bool} {start db : ClosureDb} (key hash : String)
    (r : ClosureReach quiet start db) where
  -- The path is the one of the proof, and the row is closed.
  close_refused-Reach :
      (stored : AuthorizationRecord) (reason : NegativeTerminalReason) (path : List ProtocolState)
      (reason_code : ReasonCode) (now : ℕ)
      → is_negative_closed_path path reason ≡ true
      → ClosureReach quiet start
          (close_refused host db key hash stored reason path reason_code now).1
  unfolding close_refused close_negative
  close_refused-Reach stored reason path reason_code now good =
      let proof = close_negative host db host.proof_uuid stored reason path now in
      let id = stored.decision.decision_id in
      let value = authorize_value (record {
        decision_id = id;
        outcome = stored.decision.outcome;
        reason_code = reason_code;
        capsule_id = none;
        proof_id = some proof.proof_id;
      }) in
      let closed_row = record stored { state_path = path } in
      let proves_ = λ (saved : ClosureDb). save_proof saved proof.proof_id id proof in
      let keeps =
        λ (proved : ClosureDb). save_idempotency proved authorizations key hash 422 value in
      let saves =
        save_authorization db id stored.mandate.mandate_id stored.action.action_id none closed
          closed_row in
      with_tx-holds (λ d. ClosureReach quiet start d) db (saves >>= proves_ >>= keeps)
        (answered 422 false value) r
        (λ after e.
          let (proved, p, k) = >>=-some (saves >>= proves_) keeps e in
          let (saved, s, q) = >>=-some saves proves_ p in
          save_idempotency-Reach
            (save_proof-Reach
              (save_authorization-Reach r id stored.mandate.mandate_id stored.action.action_id none
                closed closed_row (λ p x. absurd (cc x)) s)
              proof.proof_id id proof good q)
            authorizations key hash 422 value k)

  open_authorization-Reach :
      (stored : AuthorizationRecord) (state : ProtocolState) (capsule_id : Option String)
      (status : ℕ)
      → IsOnPath state stored
      → ClosureReach quiet start (open_authorization db key hash stored state capsule_id status).1
  unfolding open_authorization
  open_authorization-Reach stored state capsule_id status on_path =
      let value = authorize_value (record {
        decision_id = stored.decision.decision_id;
        outcome = stored.decision.outcome;
        reason_code = evaluated stored.decision.reason_code;
        capsule_id = capsule_id;
        proof_id = none;
      }) in
      let saves =
        save_authorization db stored.decision.decision_id stored.mandate.mandate_id
          stored.action.action_id capsule_id state stored in
      let keeps =
        λ (saved : ClosureDb). save_idempotency saved authorizations key hash status value in
      with_tx-holds (λ d. ClosureReach quiet start d) db (saves >>= keeps)
        (answered status false value) r
        (λ after e.
          let (saved, s, k) = >>=-some saves keeps e in
          save_idempotency-Reach
            (save_authorization-Reach r stored.decision.decision_id stored.mandate.mandate_id
              stored.action.action_id capsule_id state stored on_path s)
            authorizations key hash status value k)

  decided_by-Reach :
      (stored : AuthorizationRecord) (now : ℕ) (outcome : Outcome)
      → stored.decision.outcome ≡ outcome
      → is_mandate_valid_at_authorization stored.mandate stored.action now ≡ true
      → ClosureReach quiet start (authorize_decided host db key hash stored now).1
  unfolding authorize_decided is_negative_closed_path is_successful_state_path is_legal_state_path
      every_step is_legal_state_transition legal_state_transitions includes matches_path
      ProtocolState_discrete Option_discrete
  decided_by-Reach stored now deny o valid =
      rw (authorize_decided, valid, o)
        (close_refused-Reach stored NegativeTerminalReason.authorization_denied
          (proposed ∷ ProtocolState.authorization_denied ∷ closed ∷ [])
          (evaluated stored.decision.reason_code) now refl)
  decided_by-Reach stored now step_up o valid =
      rw (authorize_decided, valid, o)
        (open_authorization-Reach (record stored { state_path = proposed ∷ step_up_required ∷ [] })
          step_up_required none 202 (λ p x. some_injective x))
  decided_by-Reach stored now allow o valid =
      let capsule = issue_capsule host stored.decision now in
      rw (authorize_decided, valid, o)
        (open_authorization-Reach
          (record stored { capsule = some capsule; state_path = proposed ∷ authorized ∷ [] })
          authorized (some capsule.capsule_id) 201 (λ p x. some_injective x))

  authorize_decided-Reach :
      (stored : AuthorizationRecord) (now : ℕ)
      → ClosureReach quiet start (authorize_decided host db key hash stored now).1
  unfolding authorize_decided is_negative_closed_path is_successful_state_path is_legal_state_path
      every_step is_legal_state_transition legal_state_transitions includes matches_path
      ProtocolState_discrete Option_discrete
  authorize_decided-Reach stored now =
      elim (Bool-cases (is_mandate_valid_at_authorization stored.mandate stored.action now)) [
        | inl valid ↦ decided_by-Reach stored now stored.decision.outcome refl valid
        | inr late ↦
            rw (authorize_decided, late)
              (close_refused-Reach stored NegativeTerminalReason.expired
                (proposed ∷ ProtocolState.expired ∷ closed ∷ []) mandate_expired now refl)
      ]

  authorize_live-Reach :
      (mandate : Mandate) (action : ProposedAction) (now : ℕ) (accounts : LiveAccounts)
      → ClosureReach quiet start (authorize_live host db key hash mandate action now accounts).1
  unfolding authorize_live
  authorize_live-Reach mandate action now unavailable = r
  authorize_live-Reach mandate action now out_of_range = r
  authorize_live-Reach mandate action now (live accounts) =
      authorize_decided-Reach
        (record_of mandate action accounts (
          decision_of host action (evaluate_krw_transfer mandate action service_policy accounts)
            now))
        now

  authorize_action-Reach :
      (mandate : Mandate) (action : ProposedAction) (now : ℕ)
      → ClosureReach quiet start (authorize_action host db key hash mandate action now).1
  unfolding authorize_action
  authorize_action-Reach mandate action now = elim (Bool-cases (host.valid_action action)) [
    | inr malformed ↦ rw (authorize_action, malformed) r
    | inl valid ↦ elim (Bool-cases (is_action_within_mandate mandate action)) [
      | inr outside ↦ rw (authorize_action, valid, outside) r
      | inl within ↦
          rw (authorize_action, valid, within) (authorize_live-Reach mandate action now _)
    ]
  ]

  authorize_valued-Reach :
      (mandate : Mandate) (now : ℕ) (amount : Option ℕ)
      → ClosureReach quiet start (authorize_valued host db key hash mandate now amount).1
  unfolding authorize_valued
  authorize_valued-Reach mandate now none = r
  authorize_valued-Reach mandate now (some won) = authorize_action-Reach mandate _ now

module _ (host : ServiceHost) (db : ClosureDb) where
  authorize_keyed-Reach :
      (mandate_id key hash : String) (amount : Json)
      → ClosureReach false db (authorize_keyed host db mandate_id amount key hash).1
  unfolding authorize_keyed
  authorize_keyed-Reach mandate_id key hash amount =
      elim (Option-cases (get_mandate db mandate_id)) [
        | inl missing ↦ rw (authorize_keyed, missing) here
        | inr (mandate, there) ↦ elim (Bool-cases (is_mandate_revoked db mandate_id)) [
          | inl revoked ↦ rw (authorize_keyed, there, revoked) here
          | inr valid ↦
              rw (authorize_keyed, there, valid)
                (observed_now-holds (λ d. ClosureReach false db d) host db
                  (λ now observed.
                    authorize_valued host observed key hash mandate now
                      (host.amount_of (text_or "" amount)))
                  (λ t. next here (elsewhere refl refl) (λ _. refl))
                  (λ t now.
                    let observed : ClosureReach false db (at_time t db) =
                      next here (elsewhere refl refl) (λ _. refl) in
                    authorize_valued-Reach host key hash observed mandate now
                      (host.amount_of (text_or "" amount))))
        ]
      ]

  -- An authorization is a history.
  pub authorize-Reach :
      (mandate_id : String) (idempotency_key : Option String) (amount : Json)
      → ClosureReach false db (authorize host db mandate_id idempotency_key amount).1
  unfolding authorize
  authorize-Reach mandate_id idempotency_key amount =
      keyed-holds (λ d. ClosureReach false db d) host db authorizations idempotency_key
        (authorize_request mandate_id amount) (authorize_keyed host db mandate_id amount) here
        (λ key hash. authorize_keyed-Reach mandate_id key hash amount)
