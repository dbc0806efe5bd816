-- ===== src/Closure/Commit.antt =====
-- apps/closure-api/src/service.ts: `commit`, over any executor.
use agentic_bank.Common.{
  ℕ, Bool, true, false, not, ◌&&◌, ◌||◌, Option, none, some, [], ◌∷◌, ◌++◌, String, leb,
  if◌then◌else◌, ◌===◌, string_eq, is_some, ◌>>=◌, includes,
}
use Prim.Native.String.{◌++◌ as ◌<>◌}
use agentic_bank.Store.Types.{account_status_eq}
use agentic_bank.Protocol.State.{
  ProtocolState, NegativeTerminalReason, protocol_state_eq, authorized, approved,
  execution_intent_recorded, execution_unknown, closed,
}
use agentic_bank.Protocol.Evaluator.{DecisionInputSnapshot, is_mandate_valid_at_authorization}
use agentic_bank.Closure.Types.{
  AuthorizationRecord, AuthorizationRow, ExecutionCapsule, proof_value, unknown_value, commits,
  ClosureDb,
}
use agentic_bank.Closure.Repository.{
  is_mandate_revoked, get_authorization, update_authorization, mark_authorization_closed,
  consume_capsule, get_proof_by_decision, save_proof, save_idempotency,
}
use agentic_bank.Closure.Repository.Jobs.{enqueue_reconciliation_job}
use agentic_bank.Closure.Service.{
  ServiceHost, ServiceResult, answered, failed, thrown, commit_request, keyed, observed_now,
  with_tx, close_negative, close_unless_proved, save_commit, finish_posted_commit,
}
use agentic_bank.Closure.Snapshot.{
  LiveAccounts, unavailable, out_of_range, live, extract_live_account_snapshot,
}
use agentic_bank.Closure.Approve.{intended_states}
use agentic_bank.Closure.Reconcile.{
  ClosureExecutor, TransferInput, Execution, executed, timed_out, refused, closure_key, reconcile,
}

module _ (host : ServiceHost) (executor : ClosureExecutor) where
  -- The proof of a commit that has failed, and its answer.
  unfoldable pub commit_failed :
      ClosureDb → String → AuthorizationRecord → String → String → ℕ → ServiceResult × ClosureDb
  commit_failed db decision_id stored key hash executed_at =
      let proof =
        close_negative host db host.proof_uuid stored NegativeTerminalReason.execution_failed
          (stored.state_path
            ++ execution_intent_recorded ∷ ProtocolState.execution_failed ∷ closed ∷ [])
          executed_at in
      let value = proof_value proof.proof_id proof in
      with_tx db
        (close_unless_proved db decision_id proof >>= λ closed_.
          save_commit closed_ (some (key, hash)) 422 value)
        (answered 422 false value)

  abbrev pub moved_or_thrown :
      ClosureDb → Option (Bool × ClosureDb) → ServiceResult → ServiceResult × ClosureDb
  moved_or_thrown db none answer = (thrown, db)
  moved_or_thrown db (some moved) answer = (answer, moved.1)

  -- The row moves on, whatever it says by now.
  unfoldable pub commit_unknown : ClosureDb → String → ExecutionCapsule → ServiceResult × ClosureDb
  commit_unknown db decision_id capsule =
      let answer = answered 202 false (unknown_value decision_id ("job-" <> host.job_uuid)) in
      elim (get_authorization db decision_id) [
        | none ↦ (answer, db)
        | some latest ↦
            moved_or_thrown db
              (update_authorization db decision_id latest.state latest.state_version
                execution_unknown (some capsule.capsule_id)
                (record latest.stored {
                  state_path = latest.stored.state_path ++ execution_unknown ∷ [];
                }))
              answer
      ]

  -- An error after the transfer was posted ends in the same branch as one of the executor.
  abbrev pub or_failed :
      ServiceResult × ClosureDb → ServiceResult × ClosureDb → ServiceResult × ClosureDb
  or_failed (thrown, _) otherwise = otherwise
  or_failed (answered s r v, db) otherwise = (answered s r v, db)
  or_failed (failed s code, db) otherwise = (failed s code, db)

  unfoldable pub commit_executed :
      ClosureDb
      → String
      → AuthorizationRecord
      → ExecutionCapsule
      → String
      → String
      → ℕ
      → Execution
      → ServiceResult × ClosureDb
  unfolding commit_failed commit_unknown
  commit_executed db decision_id stored capsule key hash executed_at (executed transfer) =
      or_failed
        (finish_posted_commit host db decision_id stored transfer.ledger_sequence executed_at
          (some (key, hash)))
        (commit_failed db decision_id stored key hash executed_at)
  commit_executed db decision_id stored capsule key hash executed_at timed_out =
      commit_unknown db decision_id capsule
  commit_executed db decision_id stored capsule key hash executed_at refused =
      commit_failed db decision_id stored key hash executed_at

  abbrev pub go_on_moved :
      Option (Bool × ClosureDb)
      → (String → ServiceResult × ClosureDb)
      → (ClosureDb → ServiceResult × ClosureDb)
      → ServiceResult × ClosureDb
  go_on_moved none refuse go_on = refuse "STATE_CONFLICT"
  go_on_moved (some (false, _)) refuse go_on = refuse "STATE_CONFLICT"
  go_on_moved (some (true, moved)) refuse go_on = go_on moved

  -- The capsule is consumed and the intent recorded, or neither.
  unfoldable pub record_intent :
      ClosureDb
      → AuthorizationRow
      → String
      → ExecutionCapsule
      → ℕ
      → (String → ServiceResult × ClosureDb)
      → (ClosureDb → ServiceResult × ClosureDb)
      → ServiceResult × ClosureDb
  record_intent db row decision_id capsule now refuse go_on =
      let consumed = consume_capsule db capsule.capsule_id now in
      if not consumed.0
      then refuse "CAPSULE_REUSED"
      else go_on_moved
          (update_authorization consumed.1 decision_id row.state row.state_version
            execution_intent_recorded (some capsule.capsule_id)
            (record row.stored {
              state_path = row.stored.state_path ++ execution_intent_recorded ∷ [];
            }))
          refuse
          (λ moved.
            go_on (enqueue_reconciliation_job moved ("job-" <> host.job_uuid) decision_id now 5))

  abbrev pub transfer_input : AuthorizationRecord → ExecutionCapsule → TransferInput
  transfer_input stored capsule = record {
    customer_id = stored.action.customer_id;
    from_account_id = stored.action.transfer.from_account_id;
    to_account_id = stored.action.transfer.to_account_id;
    amount = stored.action.transfer.amount;
    idempotency_key = closure_key capsule;
  }

  -- The executor works on the tables of the core, beside which the intent is recorded.
  unfoldable pub execute_intended :
      AuthorizationRow
      → String
      → ExecutionCapsule
      → String
      → String
      → ℕ
      → ClosureDb
      → ServiceResult × ClosureDb
  unfolding commit_executed
  execute_intended row decision_id capsule key hash now intended =
      let execution = executor.execute intended.core (transfer_input row.stored capsule) in
      commit_executed (record intended { core = execution.1 }) decision_id row.stored capsule key
        hash now execution.0

  unfoldable pub commit_intended :
      ClosureDb
      → AuthorizationRow
      → String
      → ExecutionCapsule
      → String
      → String
      → ℕ
      → ServiceResult × ClosureDb
  unfolding record_intent execute_intended
  commit_intended db row decision_id capsule key hash now =
      record_intent db row decision_id capsule now (λ code. (failed 409 code, db))
        (execute_intended row decision_id capsule key hash now)

  abbrev pub same_accounts : DecisionInputSnapshot → DecisionInputSnapshot → Bool
  same_accounts a b =
      leb a.spendable_funds b.spendable_funds
      && leb b.spendable_funds a.spendable_funds
      && leb a.daily_spent b.daily_spent
      && leb b.daily_spent a.daily_spent
      && a.from_account_status === b.from_account_status
      && a.to_account_status === b.to_account_status

  unfoldable pub commit_live :
      ClosureDb
      → AuthorizationRow
      → String
      → ExecutionCapsule
      → String
      → String
      → ℕ
      → LiveAccounts
      → ServiceResult × ClosureDb
  unfolding commit_intended
  commit_live db row decision_id capsule key hash now unavailable =
      (failed 409 "SNAPSHOT_STALE", db)
  commit_live db row decision_id capsule key hash now out_of_range = (thrown, db)
  commit_live db row decision_id capsule key hash now (live accounts) =
      if same_accounts accounts row.stored.decision_input
      then commit_intended db row decision_id capsule key hash now
      else (failed 409 "SNAPSHOT_STALE", db)

  unfoldable pub commit_expired :
      ClosureDb → AuthorizationRow → String → String → String → ℕ → ServiceResult × ClosureDb
  commit_expired db row decision_id key hash executed_at =
      let proof =
        close_negative host db host.proof_uuid row.stored NegativeTerminalReason.expired
          (row.stored.state_path ++ ProtocolState.expired ∷ closed ∷ []) executed_at in
      let value = proof_value proof.proof_id proof in
      with_tx db
        (save_proof db proof.proof_id decision_id proof >>= λ proved.
          save_idempotency (mark_authorization_closed proved decision_id) commits key hash 422
            value)
        (answered 422 false value)

  unfoldable pub commit_observed :
      ClosureDb
      → AuthorizationRow
      → String
      → ExecutionCapsule
      → String
      → String
      → ℕ
      → ServiceResult × ClosureDb
  unfolding commit_live commit_expired
  commit_observed db row decision_id capsule key hash now =
      if leb capsule.expires_at now
        || not (is_mandate_valid_at_authorization row.stored.mandate row.stored.action now)
      then commit_expired db row decision_id key hash now
      else commit_live db row decision_id capsule key hash now (
          extract_live_account_snapshot db.core row.stored.action.transfer.from_account_id
            row.stored.action.transfer.to_account_id now)

  unfoldable pub commit_authorization :
      ClosureDb → AuthorizationRow → String → String → String → ServiceResult × ClosureDb
  unfolding commit_observed reconcile
  commit_authorization db row decision_id key hash =
      if includes intended_states row.state
      then reconcile host executor db decision_id
      else if not (row.state === authorized || row.state === approved)
      then (failed 422 "DECISION_NOT_ALLOWED", db)
      else elim row.stored.capsule [
        | none ↦ (failed 422 "DECISION_NOT_ALLOWED", db)
        | some capsule ↦
            if not (is_some row.stored.decision.approved_effect_hash)
            then (failed 422 "DECISION_NOT_ALLOWED", db)
            else if is_mandate_revoked db row.stored.mandate.mandate_id
            then (failed 422 "MANDATE_REVOKED", db)
            else observed_now host db
                (λ now observed. commit_observed observed row decision_id capsule key hash now)
      ]

  unfoldable pub commit_keyed : ClosureDb → String → String → String → ServiceResult × ClosureDb
  unfolding commit_authorization
  commit_keyed db decision_id key hash = elim (get_proof_by_decision db decision_id) [
    | some proof ↦
        with_tx db (save_idempotency db commits key hash 200 (proof_value proof.proof_id proof))
          (answered 200 false (proof_value proof.proof_id proof))
    | none ↦ elim (get_authorization db decision_id) [
      | none ↦ (failed 404 "AUTHORIZATION_NOT_FOUND", db)
      | some row ↦ commit_authorization db row decision_id key hash
    ]
  ]

  unfoldable pub commit : ClosureDb → String → Option String → ServiceResult × ClosureDb
  unfolding commit_keyed
  commit db decision_id idempotency_key =
      keyed host db commits idempotency_key (commit_request decision_id)
        (commit_keyed db decision_id)
