-- ===== src/Closure/Calls/Once.antt =====
-- apps/closure-api/src/service.ts: the executor is called once for a decision.
use agentic_bank.Common.{
  ℕ, ◌≡◌, refl, sym, ap, ◌∙◌, ◌⊎◌, inl, inr, Bool, true, false, not, ◌||◌, Option, some, String,
  ◌===◌, string_eq, includes, Bool-cases, find, select, find-update, find_holds, update, is_some,
  arith, ===_of_eq,
}
use Prim.Native.String.{◌++◌ as ◌<>◌}
use agentic_bank.Store.{Db}
use agentic_bank.Protocol.State.{
  ProtocolState, ProtocolState_discrete, protocol_state_eq, authorized, approved,
  execution_intent_recorded,
}
use agentic_bank.Closure.Types.{AuthorizationRow, AuthorizationRecord, ExecutionCapsule, ClosureDb}
use agentic_bank.Closure.Repository.{
  get_authorization, authorization_by_id, is_expected, moved_to, update_authorization,
  consume_capsule, capsule_taken, is_consumed,
}
use agentic_bank.Closure.Repository.Jobs.{enqueue_reconciliation_job}
use agentic_bank.Closure.Approve.{open_states}
use agentic_bank.Closure.Service.{ServiceHost, failed}
use agentic_bank.Closure.Commit.{execute_intended, commit_intended, commit}
use agentic_bank.Closure.Reconcile.{ClosureExecutor}
use agentic_bank.Closure.History.{
  IsSound, IsSpent, here, next, elsewhere, open_path, quiet-core, ClosureReach-IsSpent,
  ClosureReach-IsSound,
}
use agentic_bank.Closure.History.Tables.{enqueue-Reach, if-cases, inserted, some_injective}
use agentic_bank.Closure.History.Commit.{record_intent-holds, execute_intended-Reach}
use agentic_bank.Closure.History.Cases.{commit-holds}
use agentic_bank.Closure.Calls.{ServiceReach, ServiceReach-Reach, commit-Reach}

-- The row that was read is the one that moves.
update_authorization-IsSpent :
    (db moved : ClosureDb) (decision_id : String) (row : AuthorizationRow)
    (capsule_id : Option String) (stored : AuthorizationRecord)
    → get_authorization db decision_id ≡ some row
    → update_authorization db decision_id row.state row.state_version execution_intent_recorded
        capsule_id stored
      ≡ some (true, moved)
    → IsSpent moved decision_id
unfolding update_authorization get_authorization includes ProtocolState_discrete
update_authorization-IsSpent db moved decision_id row capsule_id stored there e =
    elim (if-cases (is_some (find expected db.authorizations)) e) [
      | inr (_, stays) ↦ absurd (cc stays)
      | inl (_, moves_) ↦
          let (_, same) =
            inserted
              (capsule_taken capsule_id
                (select (λ r. not (authorization_by_id decision_id r)) db.authorizations))
              moves_ in
          let rows : moved.authorizations ≡ update expected to db.authorizations =
            ap (λ (p : Bool × ClosureDb). p.1.authorizations) same in
          (
            to row,
            rw (
              rows,
              find-update (authorization_by_id decision_id) expected to db.authorizations
                  (λ x. refl),
              there,
              hit,
            ),
            refl,
          )
    ]
  where
    expected : AuthorizationRow → Bool
    expected = is_expected decision_id row.state row.state_version

    to : AuthorizationRow → AuthorizationRow
    to = moved_to execution_intent_recorded capsule_id stored

    hit : is_expected decision_id row.state row.state_version row ≡ true
    hit =
        rw
          (
            find_holds (authorization_by_id decision_id) db.authorizations row there,
            ===_of_eq row.state row.state refl,
          )
          (ground arith)

open_spent :
    (state : ProtocolState)
    → (state === authorized || state === approved) ≡ true
    → includes open_states state ≡ false
    → ⊥
unfolding includes ProtocolState_discrete
open_spent authorized is_open past = cc past
open_spent approved is_open past = cc past
open_spent _ is_open past = cc is_open

consume_capsule-rows :
    (db : ClosureDb) (capsule_id : String) (at : ℕ)
    → (consume_capsule db capsule_id at).1.authorizations ≡ db.authorizations
unfolding consume_capsule
consume_capsule-rows db capsule_id at = elim (Bool-cases (is_consumed capsule_id db.consumptions)) [
  | inl used ↦ rw (consume_capsule, used)
  | inr new ↦ rw (consume_capsule, new)
]

module _ (host : ServiceHost) (executor : ClosureExecutor) where
  module _ (row : AuthorizationRow) (decision_id : String)
      (on_path : open_path row.state ≡ some row.stored.state_path)
      (is_open : (row.state === authorized || row.state === approved) ≡ true) where
    executed-spends :
        (moved : ClosureDb) (capsule : ExecutionCapsule) (key hash : String) (now : ℕ)
        → IsSpent moved decision_id
        → IsSpent
            (execute_intended host executor row decision_id capsule key hash now
              (enqueue_reconciliation_job moved ("job-" <> host.job_uuid) decision_id now 5)).1
            decision_id
    executed-spends moved capsule key hash now spent =
        let queued = enqueue_reconciliation_job moved ("job-" <> host.job_uuid) decision_id now 5 in
        ClosureReach-IsSpent decision_id
          (execute_intended-Reach host executor {quiet = false} row decision_id on_path is_open
            capsule key hash now
            (next (enqueue-Reach ("job-" <> host.job_uuid) decision_id now 5 here)
              (elsewhere refl refl) (λ x. absurd (cc x))))
          spent

    intended-spends :
        (d : ClosureDb) (capsule : ExecutionCapsule) (key hash : String) (now : ℕ) {core : Db}
        → d.core ≡ core
        → get_authorization d decision_id ≡ some row
        → let after = (commit_intended host executor d row decision_id capsule key hash now).1 in
          (after.core ≡ core) ⊎ IsSpent after decision_id
    unfolding commit_intended get_authorization
    intended-spends d capsule key hash now {core} same there =
        let consumed = consume_capsule d capsule.capsule_id now in
        record_intent-holds host executor {quiet = true}
          (λ x. (x.core ≡ core) ⊎ IsSpent x decision_id) row decision_id capsule now
          (λ code. (failed 409 code, d))
          (execute_intended host executor row decision_id capsule key hash now) here
          (λ code. inl same)
          (λ moved e q. inr (
            executed-spends moved capsule key hash now (
              update_authorization-IsSpent consumed.1 moved decision_id row
                (some capsule.capsule_id) _
                (rw (consume_capsule-rows d capsule.capsule_id now) there) e)))

  commit-spends :
      (db : ClosureDb) (decision_id : String) (key : Option String)
      → IsSound db
      → ((commit host executor db decision_id key).1.core ≡ db.core)
        ⊎ IsSpent (commit host executor db decision_id key).1 decision_id
  commit-spends db decision_id key sound =
      commit-holds host executor db decision_id (λ d. (d.core ≡ db.core) ⊎ IsSpent d decision_id)
        (λ d r. inl (quiet-core r))
        (λ row d r there on_path is_open capsule k hash now.
          intended-spends row decision_id on_path is_open d capsule k hash now (quiet-core r) there)
        key sound

  commit-spent :
      (db : ClosureDb) (decision_id : String) (key : Option String)
      → IsSound db
      → IsSpent db decision_id
      → (commit host executor db decision_id key).1.core ≡ db.core
  commit-spent db decision_id key sound spent =
      commit-holds host executor db decision_id (λ d. d.core ≡ db.core) (λ d r. quiet-core r)
        (λ row d r there on_path is_open capsule k hash now.
          let (old, found, past) = ClosureReach-IsSpent decision_id r spent in
          let same : old ≡ row = some_injective (sym found ∙ there) in
          absurd (
            open_spent row.state is_open
              (ap (λ (x : AuthorizationRow). includes open_states x.state) (sym same) ∙ past)))
        key sound

-- Over every history of calls of the service, runs of its worker and changes of the core, by any executor, a decision
-- is executed at most once: if a commit on a sound state has changed the tables of the core, no later
-- commit of the same decision changes them.
pub commit-once :
    {executor : ClosureExecutor} {db later : ClosureDb} (host again : ServiceHost)
    (decision_id : String) (key other_key : Option String)
    → IsSound db
    → ServiceReach executor (commit host executor db decision_id key).1 later
    → ((commit host executor db decision_id key).1.core ≡ db.core)
      ⊎ ((commit again executor later decision_id other_key).1.core ≡ later.core)
commit-once {executor} {db} {later} host again decision_id key other_key sound r =
    let after = ClosureReach-IsSound (commit-Reach host executor db decision_id key sound) sound in
    let reached = ServiceReach-Reach r after in
    elim (commit-spends host executor db decision_id key sound) [
      | inl same ↦ inl same
      | inr spent ↦ inr (
          commit-spent again executor later decision_id other_key
            (ClosureReach-IsSound reached after) (ClosureReach-IsSpent decision_id reached spent))
    ]
