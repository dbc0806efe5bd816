-- ===== src/Closure/Repository.antt =====
-- apps/closure-api/src/repository.ts: the statements on the tables of the service. `none` is a
-- statement that throws because a row would break a key of its table.
pub mod Jobs
pub mod Retries
use agentic_bank.Common.{
  ℕ, ◌+◌, Bool, not, ◌&&◌, ◌||◌, Option, none, some, List, [], ◌∷◌, ◌++◌, String, ltb, leb,
  if◌then◌else◌, Eq, ◌===◌, string_eq, option_eq, find, select, update, length, ◌>>◌, throw_if,
  is_some, true, false,
}
use Prim.Native.String.{◌++◌ as ◌<>◌}
use agentic_bank.Store.{Journal}
use agentic_bank.Store.Types.{JournalStatus, journal_status_eq}
use agentic_bank.Protocol.Evaluator.{Mandate}
use agentic_bank.Protocol.State.{ProtocolState, closed, protocol_state_eq}
use agentic_bank.Closure.Types.{
  AuthorizationRecord, StoredProof, Value, Scope, Scope_discrete, IdempotencyRow, MandateRow,
  AuthorizationRow, Consumption, ProofRow, ClosureDb,
}

instance abbrev pub scope_eq : Eq Scope
scope_eq = record { dec_eq = Scope_discrete }

-- A clock behind the last observed time is refused.
unfoldable pub observe_after : ClosureDb → ℕ → Option ℕ → Option ℕ × ClosureDb
observe_after db system_ms none = (some system_ms, record db { last_observed_ms = some system_ms })
observe_after db system_ms (some persisted) =
    if ltb system_ms persisted
    then (none, db)
    else (some system_ms, record db { last_observed_ms = some system_ms })

unfoldable pub observe_clock : ClosureDb → ℕ → Option ℕ × ClosureDb
unfolding observe_after
observe_clock db system_ms = observe_after db system_ms db.last_observed_ms

abbrev has_key : Scope → String → IdempotencyRow → Bool
has_key scope key row = row.scope === scope && row.idempotency_key === key

unfoldable pub get_idempotency : ClosureDb → Scope → String → Option IdempotencyRow
get_idempotency db scope key = find (has_key scope key) db.idempotency

unfoldable pub save_idempotency : ClosureDb → Scope → String → String → ℕ → Value → Option ClosureDb
unfolding get_idempotency
save_idempotency db scope key request_hash status response =
    if is_some (get_idempotency db scope key)
    then none
    else some (record db {
      idempotency =
          db.idempotency
          ++ record {
            scope = scope;
            idempotency_key = key;
            request_hash = request_hash;
            status = status;
            response = response;
          }
            ∷ [];
    })

abbrev pub mandate_by_id : String → MandateRow → Bool
mandate_by_id mandate_id row = row.mandate_id === mandate_id

unfoldable pub save_mandate : ClosureDb → String → String → Mandate → Option ClosureDb
save_mandate db mandate_id customer_id envelope =
    if is_some (find (mandate_by_id mandate_id) db.mandates)
    then none
    else some (record db {
      mandates =
          db.mandates
          ++ record {
            mandate_id = mandate_id;
            customer_id = customer_id;
            revoked_at = none;
            envelope = envelope;
          }
            ∷ [];
    })

unfoldable pub get_mandate : ClosureDb → String → Option Mandate
get_mandate db mandate_id = elim (find (mandate_by_id mandate_id) db.mandates) [
  | none ↦ none
  | some row ↦ some row.envelope
]

unfoldable pub is_mandate_revoked : ClosureDb → String → Bool
is_mandate_revoked db mandate_id = elim (find (mandate_by_id mandate_id) db.mandates) [
  | none ↦ false
  | some row ↦ is_some row.revoked_at
]

-- A mandate that is revoked already keeps its time.
unfoldable pub revoke_mandate : ClosureDb → String → ℕ → ClosureDb
revoke_mandate db mandate_id revoked_at = record db {
  mandates =
      update (λ row. row.mandate_id === mandate_id && not (is_some row.revoked_at))
        (λ row. record row { revoked_at = some revoked_at }) db.mandates;
}

abbrev pub authorization_by_id : String → AuthorizationRow → Bool
authorization_by_id decision_id row = row.decision_id === decision_id

-- The column `capsule_id` is UNIQUE, and NULL is equal to nothing.
abbrev pub capsule_taken : Option String → List AuthorizationRow → Bool
capsule_taken none rows = false
capsule_taken (some capsule_id) rows =
    is_some (find (λ row. row.capsule_id === some capsule_id) rows)

unfoldable pub get_authorization : ClosureDb → String → Option AuthorizationRow
get_authorization db decision_id = find (authorization_by_id decision_id) db.authorizations

unfoldable pub list_authorizations_by_mandate : ClosureDb → String → List AuthorizationRow
list_authorizations_by_mandate db mandate_id =
    select (λ row. row.mandate_id === mandate_id) db.authorizations

unfoldable pub save_authorization :
    ClosureDb
    → String
    → String
    → String
    → Option String
    → ProtocolState
    → AuthorizationRecord
    → Option ClosureDb
unfolding get_authorization
save_authorization db decision_id mandate_id action_id capsule_id state stored =
    if is_some (get_authorization db decision_id) || capsule_taken capsule_id db.authorizations
    then none
    else some (record db {
      authorizations =
          db.authorizations
          ++ record {
            decision_id = decision_id;
            mandate_id = mandate_id;
            action_id = action_id;
            capsule_id = capsule_id;
            state = state;
            state_version = 1;
            stored = stored;
          }
            ∷ [];
    })

abbrev pub is_expected : String → ProtocolState → ℕ → AuthorizationRow → Bool
is_expected decision_id state version row =
    row.decision_id === decision_id
    && row.state === state
    && leb row.state_version version
    && leb version row.state_version

abbrev pub moved_to :
    ProtocolState → Option String → AuthorizationRecord → AuthorizationRow → AuthorizationRow
moved_to state capsule_id stored row = record row {
  state = state;
  capsule_id = capsule_id;
  stored = stored;
  state_version = row.state_version + 1;
}

-- Compare and swap on the state and its version: whether a row has moved. A capsule that another
-- row has makes the statement throw.
unfoldable pub update_authorization :
    ClosureDb
    → String
    → ProtocolState
    → ℕ
    → ProtocolState
    → Option String
    → AuthorizationRecord
    → Option (Bool × ClosureDb)
update_authorization db decision_id expected_state expected_version state capsule_id stored =
    if is_some (find (is_expected decision_id expected_state expected_version) db.authorizations)
    then if capsule_taken capsule_id
        (select (λ row. not (authorization_by_id decision_id row)) db.authorizations)
      then none
      else some (
        true,
        record db {
          authorizations =
              update (is_expected decision_id expected_state expected_version)
                (moved_to state capsule_id stored) db.authorizations;
        },
      )
    else some (false, db)

abbrev pub is_consumed : String → List Consumption → Bool
is_consumed capsule_id rows = is_some (find (λ row. row.capsule_id === capsule_id) rows)

unfoldable pub consume_capsule : ClosureDb → String → ℕ → Bool × ClosureDb
consume_capsule db capsule_id consumed_at =
    if is_consumed capsule_id db.consumptions then (false, db) else (
      true,
      record db {
        consumptions =
            db.consumptions ++ record { capsule_id = capsule_id; consumed_at = consumed_at } ∷ [];
      },
    )

abbrev pub as_closed : AuthorizationRow → AuthorizationRow
as_closed row = record row { state = closed }

unfoldable pub mark_authorization_closed : ClosureDb → String → ClosureDb
mark_authorization_closed db decision_id = record db {
  authorizations = update (authorization_by_id decision_id) as_closed db.authorizations;
}

-- The journals that an action or its capsule has made.
unfoldable pub count_action_mutations : ClosureDb → String → Option String → ℕ
count_action_mutations db action_id capsule_id =
    count ("action:" <> action_id)
    + elim capsule_id [ none ↦ 0 | some c ↦ if c === "" then 0 else count ("closure:" <> c) ]
  where
    count : String → ℕ
    count key = length (
        select
          (λ (j : Journal).
            j.idempotency_key === some key
            && (j.status === JournalStatus.posted || j.status === JournalStatus.pending))
          db.core.journals)

-- MAX(rowid), at least 1: the rows of the journals are numbered from 1 and never deleted.
unfoldable pub next_ledger_sequence : ClosureDb → ℕ
next_ledger_sequence db = elim db.core.journals [ [] ↦ 1 | js ↦ length js ]

abbrev pub proof_by_id : String → ProofRow → Bool
proof_by_id proof_id row = row.proof_id === proof_id

abbrev pub proof_by_decision : String → ProofRow → Bool
proof_by_decision decision_id row = row.decision_id === decision_id

unfoldable pub get_proof : ClosureDb → String → Option StoredProof
get_proof db proof_id = elim (find (proof_by_id proof_id) db.proofs) [
  | none ↦ none
  | some row ↦ some row.proof
]

unfoldable pub get_proof_by_decision : ClosureDb → String → Option StoredProof
get_proof_by_decision db decision_id = elim (find (proof_by_decision decision_id) db.proofs) [
  | none ↦ none
  | some row ↦ some row.proof
]

unfoldable pub save_proof : ClosureDb → String → String → StoredProof → Option ClosureDb
save_proof db proof_id decision_id proof =
    if is_some (find (proof_by_id proof_id) db.proofs)
      || is_some (find (proof_by_decision decision_id) db.proofs)
    then none
    else some (record db {
      proofs =
          db.proofs
          ++ record { proof_id = proof_id; decision_id = decision_id; proof = proof } ∷ [];
    })
