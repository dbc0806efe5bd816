-- ===== src/Closure/History/Commit.antt =====
-- apps/closure-api/src/service.ts: the execution of a `commit` as a history of the authorizations and
-- the proofs.
use agentic_bank.Common.{
  ℕ, ◌≡◌, refl, sym, ap, inl, inr, Bool, true, false, not, ◌||◌, Option, none, some, List, ◌++◌, [],
  ◌∷◌, String, ◌===◌, includes, >>=-some, ◌>>=◌, Bool-cases, Option-cases, Option_discrete,
}
use Prim.Native.String.{◌++◌ as ◌<>◌}
use agentic_bank.Protocol.State.{
  ProtocolState, ProtocolState_discrete, protocol_state_eq, NegativeTerminalReason, authorized,
  step_up_required, approved, execution_intent_recorded, execution_unknown, closed,
  is_negative_closed_path, is_successful_state_path, is_legal_state_path, every_step,
  is_legal_state_transition, legal_state_transitions, matches_path,
}
use agentic_bank.Closure.Types.{
  AuthorizationRecord, AuthorizationRow, ExecutionCapsule, commits, proof_value, unknown_value,
  ClosureDb,
}
use agentic_bank.Closure.Repository.{
  get_authorization, update_authorization, consume_capsule, save_proof, save_idempotency,
  mark_authorization_closed,
}
use agentic_bank.Closure.Repository.Jobs.{enqueue_reconciliation_job}
use agentic_bank.Closure.Service.{
  ServiceHost, ServiceResult, answered, failed, thrown, close_negative,
}
use agentic_bank.Closure.Service.Holds.{with_tx-holds}
use agentic_bank.Closure.Commit.{
  commit_failed, moved_or_thrown, commit_unknown, go_on_moved, or_failed, commit_executed,
  record_intent, execute_intended, transfer_input, commit_expired,
}
use agentic_bank.Closure.Reconcile.{ClosureExecutor, Execution, executed, timed_out, refused}
use agentic_bank.Closure.History.{open_path, ClosureReach}
use agentic_bank.Closure.History.Tables.{
  some_injective, save_proof-Reach, save_idempotency-Reach, update_authorization-Reach,
  mark_authorization_closed-Reach, closed_with-Reach, enqueue-Reach, consume_capsule-Reach,
  finish_posted_commit-Reach,
}

-- A path that is open to a commit ends well in a failed execution.
failed_path :
    (state : ProtocolState) (path : List ProtocolState)
    → open_path state ≡ some path
    → (state === authorized || state === approved) ≡ true
    → is_negative_closed_path
        (path ++ execution_intent_recorded ∷ ProtocolState.execution_failed ∷ closed ∷ [])
        NegativeTerminalReason.execution_failed
      ≡ true
unfolding is_negative_closed_path is_successful_state_path is_legal_state_path every_step
    is_legal_state_transition legal_state_transitions includes matches_path ProtocolState_discrete
    Option_discrete
failed_path authorized path e c = rw (← some_injective e)
failed_path approved path e c = rw (← some_injective e)
failed_path _ path e c = absurd (cc)

pub expired_path :
    (state : ProtocolState) (path : List ProtocolState)
    → open_path state ≡ some path
    → is_negative_closed_path
        (path ++ ProtocolState.expired ∷ closed ∷ [])
        NegativeTerminalReason.expired
      ≡ true
unfolding is_negative_closed_path is_successful_state_path is_legal_state_path every_step
    is_legal_state_transition legal_state_transitions includes matches_path ProtocolState_discrete
    Option_discrete
expired_path authorized path e = rw (← some_injective e)
expired_path step_up_required path e = rw (← some_injective e)
expired_path approved path e = rw (← some_injective e)
expired_path _ path e = absurd (cc)

pub committable :
    (state : ProtocolState) (path : List ProtocolState)
    → ((p : List ProtocolState) → open_path state ≡ some p → path ≡ p)
    → (state === authorized || state === approved) ≡ true
    → open_path state ≡ some path
unfolding ProtocolState_discrete
committable authorized path h k = ap (λ p. some p) (sym (h _ refl))
committable approved path h k = ap (λ p. some p) (sym (h _ refl))
committable _ path h k = absurd (cc k)

module _ (host : ServiceHost) (executor : ClosureExecutor) where
  go_on_moved-holds :
      (P : ClosureDb → Type 0) (o : Option (Bool × ClosureDb))
      (refuse : String → ServiceResult × ClosureDb) (go_on : ClosureDb → ServiceResult × ClosureDb)
      → ((code : String) → P (refuse code).1)
      → ((moved : ClosureDb) → o ≡ some (true, moved) → P (go_on moved).1)
      → P (go_on_moved host executor o refuse go_on).1
  go_on_moved-holds P none refuse go_on r k = r "STATE_CONFLICT"
  go_on_moved-holds P (some (false, d)) refuse go_on r k = r "STATE_CONFLICT"
  go_on_moved-holds P (some (true, moved)) refuse go_on r k = k moved refl

module _ (host : ServiceHost) (executor : ClosureExecutor) {quiet : Bool} {start : ClosureDb} where
  module _ (decision_id : String) (stored : AuthorizationRecord) (state : ProtocolState)
      (on_path : open_path state ≡ some stored.state_path)
      (is_open : (state === authorized || state === approved) ≡ true) where
    commit_failed-Reach :
        {db : ClosureDb} (key hash : String) (at : ℕ)
        → ClosureReach quiet start db
        → ClosureReach quiet start (commit_failed host executor db decision_id stored key hash at).1
    unfolding commit_failed close_negative
    commit_failed-Reach {db} key hash at r =
        let path =
          stored.state_path
          ++ execution_intent_recorded ∷ ProtocolState.execution_failed ∷ closed ∷ [] in
        closed_with-Reach decision_id
          (close_negative host db host.proof_uuid stored NegativeTerminalReason.execution_failed
            path at)
          (some (key, hash)) 422 _ _ r (failed_path state stored.state_path on_path is_open)

    moved_or_thrown-Reach :
        {db : ClosureDb} (o : Option (Bool × ClosureDb)) (answer : ServiceResult)
        → ClosureReach quiet start db
        → ((moved : Bool × ClosureDb) → o ≡ some moved → ClosureReach quiet start moved.1)
        → ClosureReach quiet start (moved_or_thrown host executor db o answer).1
    moved_or_thrown-Reach none answer r k = r
    moved_or_thrown-Reach (some moved) answer r k = k moved refl

    commit_unknown-Reach :
        {db : ClosureDb} (capsule : ExecutionCapsule)
        → ClosureReach quiet start db
        → ClosureReach quiet start (commit_unknown host executor db decision_id capsule).1
    unfolding commit_unknown includes ProtocolState_discrete
    commit_unknown-Reach {db} capsule r = elim (Option-cases (get_authorization db decision_id)) [
      | inl missing ↦ rw (commit_unknown, missing) r
      | inr (latest, there) ↦
          let moved = record latest.stored {
            state_path = latest.stored.state_path ++ execution_unknown ∷ [];
          } in
          rw (commit_unknown, there)
            (moved_or_thrown-Reach
              (update_authorization db decision_id latest.state latest.state_version
                execution_unknown (some capsule.capsule_id) moved)
              (answered 202 false (unknown_value decision_id ("job-" <> host.job_uuid))) r
              (λ m e.
                update_authorization-Reach r decision_id latest.state latest.state_version
                  execution_unknown (some capsule.capsule_id) moved m.0 (λ path x. absurd (cc x))
                  (λ x. refl) e))
    ]

    or_failed-Reach :
        (answer otherwise : ServiceResult × ClosureDb)
        → ClosureReach quiet start answer.1
        → ClosureReach quiet start otherwise.1
        → ClosureReach quiet start (or_failed host executor answer otherwise).1
    or_failed-Reach (thrown, _) otherwise r q = q
    or_failed-Reach (answered s b v, db) otherwise r q = r
    or_failed-Reach (failed s code, db) otherwise r q = r

    commit_executed-Reach :
        {db : ClosureDb} (capsule : ExecutionCapsule) (key hash : String) (at : ℕ)
        (execution : Execution)
        → ClosureReach quiet start db
        → ClosureReach quiet start
            (commit_executed host executor db decision_id stored capsule key hash at execution).1
    unfolding commit_executed
    commit_executed-Reach capsule key hash at (executed transfer) r =
        or_failed-Reach _ _
          (finish_posted_commit-Reach host decision_id stored transfer.ledger_sequence at
            (some (key, hash)) r)
          (commit_failed-Reach key hash at r)
    commit_executed-Reach capsule key hash at timed_out r = commit_unknown-Reach capsule r
    commit_executed-Reach capsule key hash at refused r = commit_failed-Reach key hash at r

  -- What a commit whose intent is refused, and one that goes on, have in common.
  pub record_intent-holds :
      (P : ClosureDb → Type 0) {db : ClosureDb} (row : AuthorizationRow) (decision_id : String)
      (capsule : ExecutionCapsule) (now : ℕ) (refuse : String → ServiceResult × ClosureDb)
      (go_on : ClosureDb → ServiceResult × ClosureDb)
      → ClosureReach quiet start db
      → ((code : String) → P (refuse code).1)
      → ((moved : ClosureDb)
          → update_authorization
              (consume_capsule db capsule.capsule_id now).1
              decision_id
              row.state
              row.state_version
              execution_intent_recorded
              (some capsule.capsule_id)
              (record row.stored {
                state_path = row.stored.state_path ++ execution_intent_recorded ∷ [];
              })
            ≡ some (true, moved)
          → let intended =
              enqueue_reconciliation_job moved ("job-" <> host.job_uuid) decision_id now 5 in
            ClosureReach quiet start intended → P (go_on intended).1)
      → P (record_intent host executor db row decision_id capsule now refuse go_on).1
  unfolding record_intent includes ProtocolState_discrete
  record_intent-holds P {db} row decision_id capsule now refuse go_on r refused_ k =
      let consumed = consume_capsule db capsule.capsule_id now in
      let intended = record row.stored {
        state_path = row.stored.state_path ++ execution_intent_recorded ∷ [];
      } in
      elim (Bool-cases (not consumed.0)) [
        | inl used ↦ rw (record_intent, used) (refused_ "CAPSULE_REUSED")
        | inr new ↦
            rw (record_intent, new)
              (go_on_moved-holds host executor P
                (update_authorization consumed.1 decision_id row.state row.state_version
                  execution_intent_recorded (some capsule.capsule_id) intended)
                refuse _ refused_
                (λ moved e. k moved e (
                  enqueue-Reach ("job-" <> host.job_uuid) decision_id now 5 (
                    update_authorization-Reach (consume_capsule-Reach capsule.capsule_id now r)
                      decision_id row.state row.state_version execution_intent_recorded
                      (some capsule.capsule_id) intended true (λ path x. absurd (cc x)) (λ x. refl)
                      e))))
      ]

  -- What an open row that is found comes to.
  module _ (row : AuthorizationRow) (decision_id : String)
      (on_path : open_path row.state ≡ some row.stored.state_path)
      (is_open : (row.state === authorized || row.state === approved) ≡ true) where
    pub execute_intended-Reach :
        {db : ClosureDb} (capsule : ExecutionCapsule) (key hash : String) (now : ℕ)
        → ClosureReach quiet start (record db {
          core = (executor.execute db.core (transfer_input host executor row.stored capsule)).1;
        })
        → ClosureReach quiet start
            (execute_intended host executor row decision_id capsule key hash now db).1
    unfolding execute_intended
    execute_intended-Reach {db} capsule key hash now r =
        let execution =
          executor.execute db.core (transfer_input host executor row.stored capsule) in
        let ran : ClosureDb = record db { core = execution.1 } in
        commit_executed-Reach decision_id row.stored row.state on_path is_open {db = ran} capsule
          key hash now execution.0 r

    pub commit_expired-Reach :
        {db : ClosureDb} (key hash : String) (at : ℕ)
        → ClosureReach quiet start db
        → ClosureReach quiet start (commit_expired host executor db row decision_id key hash at).1
    unfolding commit_expired close_negative
    commit_expired-Reach {db} key hash at r =
        let path = row.stored.state_path ++ ProtocolState.expired ∷ closed ∷ [] in
        let proof =
          close_negative host db host.proof_uuid row.stored NegativeTerminalReason.expired path
            at in
        let saves = λ (proved : ClosureDb).
          save_idempotency (mark_authorization_closed proved decision_id) commits key hash 422
            (proof_value proof.proof_id proof) in
        with_tx-holds (λ d. ClosureReach quiet start d) db
          (save_proof db proof.proof_id decision_id proof >>= saves)
          (answered 422 false (proof_value proof.proof_id proof)) r
          (λ after e.
            let (proved, s, rest) =
              >>=-some (save_proof db proof.proof_id decision_id proof) saves e in
            save_idempotency-Reach
              (mark_authorization_closed-Reach
                (save_proof-Reach r proof.proof_id decision_id proof
                  (expired_path row.state row.stored.state_path on_path) s)
                decision_id)
              commits key hash 422 (proof_value proof.proof_id proof) rest)
