-- ===== src/Closure/History/Cases.antt =====
-- apps/closure-api/src/service.ts: what `commit` comes to: a quiet history, or an open row whose
-- execution is intended.
use agentic_bank.Common.{
  ℕ, ◌≡◌, inl, inr, true, false, not, ◌||◌, Option, some, String, ◌===◌, includes, is_some,
  Bool-cases, Option-cases, leb, refl,
}
use agentic_bank.Protocol.State.{protocol_state_eq, authorized, approved}
use agentic_bank.Protocol.Evaluator.{is_mandate_valid_at_authorization}
use agentic_bank.Closure.Types.{AuthorizationRow, ExecutionCapsule, proof_value, commits, ClosureDb}
use agentic_bank.Closure.Repository.{
  get_authorization, get_proof_by_decision, save_idempotency, is_mandate_revoked,
}
use agentic_bank.Closure.Approve.{intended_states}
use agentic_bank.Closure.Service.{ServiceHost, answered, commit_request}
use agentic_bank.Closure.Snapshot.{LiveAccounts, unavailable, out_of_range, live}
use agentic_bank.Closure.Service.Holds.{keyed-holds, with_tx-holds, observed_now-holds, at_time}
use agentic_bank.Closure.Commit.{
  same_accounts, commit_intended, commit_live, commit_observed, commit_authorization, commit_keyed,
  commit,
}
use agentic_bank.Closure.Reconcile.{ClosureExecutor}
use agentic_bank.Closure.History.{
  IsRowOnPath, IsSound, open_path, elsewhere, ClosureReach, here, next, found_on_path,
}
use agentic_bank.Closure.History.Tables.{save_idempotency-Reach}
use agentic_bank.Closure.History.Commit.{committable, commit_expired-Reach}
use agentic_bank.Closure.History.Reconcile.{reconcile-Reach}

module _ (host : ServiceHost) (executor : ClosureExecutor) (db : ClosureDb) (decision_id : String)
    (P : ClosureDb → Type 0) (rests : (d : ClosureDb) → ClosureReach true db d → P d)
    (runs : (row : AuthorizationRow) (d : ClosureDb)
      → ClosureReach true db d
      → get_authorization d decision_id ≡ some row
      → open_path row.state ≡ some row.stored.state_path
      → (row.state === authorized || row.state === approved) ≡ true
      → (capsule : ExecutionCapsule) (key hash : String) (now : ℕ)
      → P (commit_intended host executor d row decision_id capsule key hash now).1) where
  module _ (row : AuthorizationRow) (on_path : open_path row.state ≡ some row.stored.state_path)
      (is_open : (row.state === authorized || row.state === approved) ≡ true) where
    commit_live-holds :
        (d : ClosureDb) (capsule : ExecutionCapsule) (key hash : String) (now : ℕ)
        (accounts : LiveAccounts)
        → get_authorization d decision_id ≡ some row
        → ClosureReach true db d
        → P (commit_live host executor d row decision_id capsule key hash now accounts).1
    unfolding commit_live
    commit_live-holds d capsule key hash now unavailable there r = rests d r
    commit_live-holds d capsule key hash now out_of_range there r = rests d r
    commit_live-holds d capsule key hash now (live accounts) there r =
        elim (Bool-cases (same_accounts host executor accounts row.stored.decision_input)) [
          | inl same ↦
              rw (commit_live, same) (runs row d r there on_path is_open capsule key hash now)
          | inr stale ↦ rw (commit_live, stale) (rests d r)
        ]

    commit_observed-holds :
        (d : ClosureDb) (capsule : ExecutionCapsule) (key hash : String) (now : ℕ)
        → get_authorization d decision_id ≡ some row
        → ClosureReach true db d
        → P (commit_observed host executor d row decision_id capsule key hash now).1
    unfolding commit_observed
    commit_observed-holds d capsule key hash now there r =
        elim (Bool-cases (
          leb capsule.expires_at now
          || not (is_mandate_valid_at_authorization row.stored.mandate row.stored.action now))) [
            | inl late ↦
                rw (commit_observed, late)
                  (rests _ (
                    commit_expired-Reach host executor row decision_id on_path is_open key hash now
                      r))
            | inr valid ↦
                rw (commit_observed, valid) (commit_live-holds d capsule key hash now _ there r)
          ]

  module _ (row : AuthorizationRow) (key hash : String) (on_path : IsRowOnPath row)
      (there : get_authorization db decision_id ≡ some row) where
    commit_open-holds :
        includes intended_states row.state ≡ false
        → (row.state === authorized || row.state === approved) ≡ true
        → (capsule : ExecutionCapsule) → row.stored.capsule ≡ some capsule
        → P (commit_authorization host executor db row decision_id key hash).1
    unfolding commit_authorization get_authorization
    commit_open-holds fresh is_open capsule has =
        elim (Bool-cases (is_some row.stored.decision.approved_effect_hash)) [
          | inr unapproved ↦
              rw (commit_authorization, fresh, is_open, has, unapproved) (rests db here)
          | inl effect ↦ elim (Bool-cases (is_mandate_revoked db row.stored.mandate.mandate_id)) [
            | inl revoked ↦
                rw (commit_authorization, fresh, is_open, has, effect, revoked) (rests db here)
            | inr valid ↦
                rw (commit_authorization, fresh, is_open, has, effect, valid)
                  (observed_now-holds P host db
                    (λ now observed.
                      commit_observed host executor observed row decision_id capsule key hash now)
                    (λ t. rests (at_time t db) (next here (elsewhere refl refl) (λ _. refl)))
                    (λ t now.
                      commit_observed-holds row
                        (committable row.state row.stored.state_path on_path is_open) is_open
                        (at_time t db) capsule key hash now there
                        (next here (elsewhere refl refl) (λ _. refl))))
          ]
        ]

    commit_authorization-holds :
        P (commit_authorization host executor db row decision_id key hash).1
    unfolding commit_authorization
    commit_authorization-holds = elim (Bool-cases (includes intended_states row.state)) [
      | inl intended ↦
          rw (commit_authorization, intended)
            (rests _ (reconcile-Reach host executor decision_id here))
      | inr fresh ↦ elim (Bool-cases (row.state === authorized || row.state === approved)) [
        | inr other ↦ rw (commit_authorization, fresh, other) (rests db here)
        | inl is_open ↦ elim (Option-cases row.stored.capsule) [
          | inl bare ↦ rw (commit_authorization, fresh, is_open, bare) (rests db here)
          | inr (capsule, has) ↦ commit_open-holds fresh is_open capsule has
        ]
      ]
    ]

  commit_keyed-holds :
      (key hash : String) → IsSound db → P (commit_keyed host executor db decision_id key hash).1
  unfolding commit_keyed
  commit_keyed-holds key hash sound = elim (Option-cases (get_proof_by_decision db decision_id)) [
    | inr (proof, known) ↦
        rw (commit_keyed, known)
          (with_tx-holds P db
            (save_idempotency db commits key hash 200 (proof_value proof.proof_id proof))
            (answered 200 false (proof_value proof.proof_id proof)) (rests db here)
            (λ after e. rests after (save_idempotency-Reach here commits key hash 200 _ e)))
    | inl open_ ↦ elim (Option-cases (get_authorization db decision_id)) [
      | inl missing ↦ rw (commit_keyed, open_, missing) (rests db here)
      | inr (row, there) ↦
          rw (commit_keyed, open_, there)
            (commit_authorization-holds row key hash (found_on_path db decision_id row sound there)
              there)
    ]
  ]

  -- What holds of quiet histories and of an intended execution holds of a commit.
  pub commit-holds :
      (idempotency_key : Option String)
      → IsSound db
      → P (commit host executor db decision_id idempotency_key).1
  unfolding commit
  commit-holds idempotency_key sound =
      keyed-holds P host db commits idempotency_key (commit_request decision_id)
        (commit_keyed host executor db decision_id) (rests db here)
        (λ key hash. commit_keyed-holds key hash sound)
