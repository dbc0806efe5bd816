-- ===== src/Closure/Service.antt =====
-- apps/closure-api/src/service.ts: what its methods share. A method answers beside
-- the tables as it leaves them: `thrown` is an error that it does not catch. Of an error the status
-- and the code are kept.
pub mod Holds
use agentic_bank.Common.{
  ℕ, ◌+◌, ◌*◌, Bool, true, false, Option, none, some, List, String, ℤ, pos, negsuc, ◌-ℤ◌, ltb,
  if◌then◌else◌, ◌===◌, string_eq, trim, ◌>>=◌, is_some,
}
use Prim.Native.String.{◌++◌ as ◌<>◌}
use agentic_bank.Store.{Account, Db}
use agentic_bank.Store.Args.{Json}
use agentic_bank.Ledger.{get_account, available_balance, pending_out, customer_outbound}
use agentic_bank.Time.{seoul_day_utc_range}
use agentic_bank.Protocol.State.{
  ProtocolState, NegativeTerminalReason, successful_state_path, successful_step_up_state_path,
}
use agentic_bank.Protocol.Evaluator.{Mandate, ProposedAction, PolicyArtifact, DecisionInputSnapshot}
use agentic_bank.Closure.Snapshot.{non_empty}
use agentic_bank.Closure.Types.{
  AuthorizationDecision, ExecutionCapsule, ObservationStatus, AuthorizationRecord, StoredProof,
  Value, proof_value, Scope, commits, IdempotencyRow, ReconciliationJob, ClosureDb,
}
use agentic_bank.Closure.Repository.{
  get_idempotency, save_idempotency, mark_authorization_closed, count_action_mutations,
  next_ledger_sequence, get_proof_by_decision, save_proof, observe_clock,
}
use agentic_bank.Closure.Repository.Jobs.{get_job_by_decision, complete_job}

-- The bodies whose hash tells two requests under one key apart.
pub data Request : Type 0 where
  mandate_request : Json → Json → Json → Json → Json → Request
  authorize_request : String → Json → Request
  approval_request : String → String → Request
  revocation_request : String → Request
  commit_request : String → Request

-- What one call is given: the SHA-256 hashes and the schemas of the protocol as functions, the
-- readings of the clock and the random ids.
pub record ServiceHost : Type 0 where
  pub request_hash : Request → String
  pub effect_hash : ProposedAction → String
  pub amount_of : String → Option ℕ
  pub valid_mandate : Mandate → Bool
  pub valid_action : ProposedAction → Bool
  pub live_at : ℕ
  pub now : ℕ
  pub mandate_uuid : String
  pub action_uuid : String
  pub decision_uuid : String
  pub approval_uuid : String
  pub capsule_uuid : String
  pub job_uuid : String
  pub proof_uuid : String

pub data ServiceResult : Type 0 where
  answered : ℕ → Bool → Value → ServiceResult
  failed : ℕ → String → ServiceResult
  thrown : ServiceResult

-- The bounds of the policy that the running service has signed.
abbrev pub service_policy : PolicyArtifact
service_policy = record { daily_cap = 5000000; step_up_threshold = 1000000 }

abbrev pub minute_ms : ℕ
minute_ms = 60 * 1000

unfoldable pub read_idempotency_key : Option String → Option String
read_idempotency_key none = none
read_idempotency_key (some key) = non_empty (trim key)

unfoldable pub replay_or_conflict : Option IdempotencyRow → String → Option ServiceResult
replay_or_conflict none hash = none
replay_or_conflict (some existing) hash = some (
    if existing.request_hash === hash
    then answered existing.status true existing.response
    else failed 409 "IDEMPOTENCY_CONFLICT")

abbrev pub unless_answered :
    ClosureDb → Option ServiceResult → ServiceResult × ClosureDb → ServiceResult × ClosureDb
unless_answered db (some answer) rest = (answer, db)
unless_answered db none rest = rest

abbrev pub with_key :
    ServiceHost
    → ClosureDb
    → Scope
    → Option String
    → Request
    → (String → String → ServiceResult × ClosureDb)
    → ServiceResult × ClosureDb
with_key host db scope none request body = (failed 400 "IDEMPOTENCY_REQUIRED", db)
with_key host db scope (some key) request body =
    let hash = host.request_hash request in
    unless_answered db (replay_or_conflict (get_idempotency db scope key) hash) (body key hash)

-- How every method starts: the key, the hash of the request, and an earlier answer to it.
unfoldable pub keyed :
    ServiceHost
    → ClosureDb
    → Scope
    → Option String
    → Request
    → (String → String → ServiceResult × ClosureDb)
    → ServiceResult × ClosureDb
unfolding read_idempotency_key replay_or_conflict
keyed host db scope idempotency_key request body =
    with_key host db scope (read_idempotency_key idempotency_key) request body

-- `withTx`: a throw leaves the tables as they were.
abbrev pub with_tx : ClosureDb → Option ClosureDb → ServiceResult → ServiceResult × ClosureDb
with_tx db none result = (thrown, db)
with_tx db (some after) result = (result, after)

abbrev pub with_observed :
    Option ℕ × ClosureDb → (ℕ → ClosureDb → ServiceResult × ClosureDb) → ServiceResult × ClosureDb
with_observed (none, db) body = (failed 422 "CLOCK_ROLLBACK", db)
with_observed (some now, db) body = body now db

-- A method goes on with the observed time.
unfoldable pub observed_now :
    ServiceHost
    → ClosureDb
    → (ℕ → ClosureDb → ServiceResult × ClosureDb)
    → ServiceResult × ClosureDb
observed_now host db body = with_observed (observe_clock db host.now) body

-- A capsule is good for ten minutes.
unfoldable pub issue_capsule : ServiceHost → AuthorizationDecision → ℕ → ExecutionCapsule
issue_capsule host decision now = record {
  issued_at = now;
  capsule_id = "capsule-" <> host.capsule_uuid;
  approved_effect_hash = decision.approved_effect_hash;
  not_before = now;
  expires_at = now + 10 * minute_ms;
}

unfoldable pub close_success : ServiceHost → AuthorizationRecord → ℕ → ℕ → StoredProof
close_success host stored ledger_sequence executed_at = record {
  proof_id = "proof-" <> host.proof_uuid;
  terminal_reason = none;
  mandate = stored.mandate;
  action = stored.action;
  decision_input = stored.decision_input;
  decision = stored.decision;
  step_up_approval = stored.approval;
  capsule = stored.capsule;
  consumed_at = some executed_at;
  ledger_observation = record {
    issued_at = executed_at;
    status = ObservationStatus.posted;
    mutation_count = 1;
    action_id = stored.action.action_id;
    ledger_sequence = ledger_sequence;
    observed_at = executed_at;
  };
  state_path =
      if is_some stored.approval then successful_step_up_state_path else successful_state_path;
  closed_at = executed_at;
}

abbrev capsule_id_of : Option ExecutionCapsule → Option String
capsule_id_of none = none
capsule_id_of (some capsule) = some capsule.capsule_id

unfoldable pub close_negative :
    ServiceHost
    → ClosureDb
    → String
    → AuthorizationRecord
    → NegativeTerminalReason
    → List ProtocolState
    → ℕ
    → StoredProof
close_negative host db proof_uuid stored terminal_reason state_path closed_at = record {
  proof_id = "proof-" <> proof_uuid;
  terminal_reason = some terminal_reason;
  mandate = stored.mandate;
  action = stored.action;
  decision_input = stored.decision_input;
  decision = stored.decision;
  step_up_approval = stored.approval;
  capsule = none;
  consumed_at = none;
  ledger_observation = record {
    issued_at = closed_at;
    status = ObservationStatus.absent;
    mutation_count =
        count_action_mutations db stored.action.action_id (capsule_id_of stored.capsule);
    action_id = stored.action.action_id;
    ledger_sequence = next_ledger_sequence db;
    observed_at = closed_at;
  };
  state_path = state_path;
  closed_at = closed_at;
}

abbrev pub complete_found : ClosureDb → Option ReconciliationJob → ClosureDb
complete_found db none = db
complete_found db (some job) = complete_job db job.job_id

-- A decision that has no proof yet is closed with this one, and so is its job.
unfoldable pub close_unless_proved : ClosureDb → String → StoredProof → Option ClosureDb
close_unless_proved db decision_id proof =
    if is_some (get_proof_by_decision db decision_id)
    then some db
    else save_proof db proof.proof_id decision_id proof >>= λ proved. some (
        let after = mark_authorization_closed proved decision_id in
        complete_found after (get_job_by_decision after decision_id))

-- The key under which a commit is answered again; a reconciliation has none.
unfoldable pub save_commit : ClosureDb → Option (String × String) → ℕ → Value → Option ClosureDb
save_commit db none status value = some db
save_commit db (some keys) status value = save_idempotency db commits keys.0 keys.1 status value

unfoldable pub finish_posted_commit :
    ServiceHost
    → ClosureDb
    → String
    → AuthorizationRecord
    → ℕ
    → ℕ
    → Option (String × String)
    → ServiceResult × ClosureDb
unfolding close_success close_unless_proved save_commit
finish_posted_commit host db decision_id stored ledger_sequence executed_at keys =
    let proof = close_success host stored ledger_sequence executed_at in
    let value = proof_value proof.proof_id proof in
    with_tx db
      (close_unless_proved db decision_id proof >>= λ closed. save_commit closed keys 201 value)
      (answered 201 false value)
