-- ===== src/Closure/History/Revoke.antt =====
-- apps/closure-api/src/service.ts: `revokeMandate` as a history of the authorizations and the proofs.
use agentic_bank.Common.{
  ℕ, ◌+◌, ◌≡◌, refl, ◌⊎◌, inl, inr, Bool, true, false, not, ◌||◌, Option, none, some, List, ◌∷◌, [],
  ◌++◌, String, includes, is_some, >>=-some, string_eq, Bool-cases, Option-cases, Option_discrete,
  All, All-select,
}
use mathlib.Core.Path.{subst}
use agentic_bank.Protocol.State.{
  ProtocolState, ProtocolState_discrete, protocol_state_eq, NegativeTerminalReason, authorized,
  approved, step_up_required, closed, is_negative_closed_path, is_successful_state_path,
  is_legal_state_path, every_step, is_legal_state_transition, legal_state_transitions, matches_path,
}
use agentic_bank.Closure.Types.{AuthorizationRow, revocation_value, revocations, ClosureDb}
use agentic_bank.Closure.Repository.{
  get_mandate, list_authorizations_by_mandate, mark_authorization_closed, get_proof_by_decision,
  save_proof, save_idempotency, revoke_mandate as persist_mandate_revocation,
}
use agentic_bank.Closure.Service.{ServiceHost, answered, revocation_request, close_negative}
use agentic_bank.Closure.Service.Holds.{keyed-holds, with_tx-holds}
use agentic_bank.Closure.Approve.{
  open_states, any_intended, revoke_each, revoked_or_thrown, revoke_open, revoke_keyed,
  revoke_mandate,
}
use agentic_bank.Closure.History.{
  IsRowOnPath, IsSound, open_path, elsewhere, ClosureReach, here, next,
}
use agentic_bank.Closure.History.Tables.{
  some_injective, save_proof-Reach, save_idempotency-Reach, mark_authorization_closed-Reach,
}

revoked_path :
    (state : ProtocolState) (path : List ProtocolState)
    → ((p : List ProtocolState) → open_path state ≡ some p → path ≡ p)
    → includes open_states state ≡ true
    → is_negative_closed_path
        (path ++ ProtocolState.revoked ∷ closed ∷ [])
        NegativeTerminalReason.revoked
      ≡ true
unfolding is_negative_closed_path is_successful_state_path is_legal_state_path every_step
    is_legal_state_transition legal_state_transitions includes matches_path ProtocolState_discrete
    Option_discrete
revoked_path authorized path h k = rw (h _ refl)
revoked_path step_up_required path h k = rw (h _ refl)
revoked_path approved path h k = rw (h _ refl)
revoked_path _ path h k = absurd (cc k)

elim-cases :
    {A : Type 0} (b : Bool) {x y z : A}
    → (elim b [ true ↦ x | false ↦ y ]) ≡ z
    → ((b ≡ true) × (x ≡ z)) ⊎ ((b ≡ false) × (y ≡ z))
elim-cases true e = inl (refl, e)
elim-cases false e = inr (refl, e)

open_of : (b c : Bool) → not b || c ≡ false → b ≡ true
open_of true c e = refl
open_of false c e = cc e

module _ (host : ServiceHost) (proof_uuids : ℕ → String) (at : ℕ) where
  revoke_each-Reach :
      {quiet : Bool} {start : ClosureDb} (rows : List AuthorizationRow) {db after : ClosureDb}
      (n : ℕ) (ids : List String)
      → All IsRowOnPath rows
      → ClosureReach quiet start db
      → revoke_each host proof_uuids db rows n at ≡ some (ids, after)
      → ClosureReach quiet start after
  unfolding revoke_each close_negative
  revoke_each-Reach {quiet = quiet} {start = start} [] n ids h r e =
      subst (λ (x : List String × ClosureDb). ClosureReach quiet start x.1) (some_injective e) r
  revoke_each-Reach {quiet = quiet} {start = start} (row ∷ rows) {db = db} n ids h r e =
      elim (elim-cases
        (not (includes open_states row.state) || is_some (get_proof_by_decision db row.decision_id))
        e) [
          | inl (_, rest) ↦ revoke_each-Reach rows n ids h.1 r rest
          | inr (open_, closes_) ↦
              let path = row.stored.state_path ++ ProtocolState.revoked ∷ closed ∷ [] in
              let proof =
                close_negative host db (proof_uuids n) row.stored NegativeTerminalReason.revoked
                  path at in
              let (proved, s, rest) =
                >>=-some (save_proof db proof.proof_id row.decision_id proof) _ closes_ in
              let (tail, t, last) =
                >>=-some
                  (revoke_each host proof_uuids (mark_authorization_closed proved row.decision_id)
                    rows (n + 1) at)
                  _ rest in
              let good = revoked_path row.state row.stored.state_path h.0 (
                open_of (includes open_states row.state)
                  (is_some (get_proof_by_decision db row.decision_id)) open_) in
              let reached =
                revoke_each-Reach rows (n + 1) tail.0 h.1
                  (mark_authorization_closed-Reach
                    (save_proof-Reach r proof.proof_id row.decision_id proof good s)
                    row.decision_id)
                  t in
              subst (λ (x : List String × ClosureDb). ClosureReach quiet start x.1)
                (some_injective last) reached
        ]

revoked_or_thrown-Reach :
    {db : ClosureDb} (mandate_id key hash : String) (o : Option (List String × ClosureDb))
    → ((ids : List String) (after : ClosureDb)
        → o ≡ some (ids, after)
        → ClosureReach false db after)
    → ClosureReach false db (revoked_or_thrown db mandate_id key hash o).1
revoked_or_thrown-Reach mandate_id key hash none k = here
revoked_or_thrown-Reach {db} mandate_id key hash (some (ids, after)) k =
    let value = revocation_value mandate_id ids in
    with_tx-holds (λ d. ClosureReach false db d) db
      (save_idempotency after revocations key hash 200 value) (answered 200 false value) here
      (λ final e. save_idempotency-Reach (k ids after refl) revocations key hash 200 value e)

-- A revocation is a history.
pub revoke_mandate-Reach :
    (host : ServiceHost) (proof_uuids : ℕ → String) (db : ClosureDb) (mandate_id : String)
    (idempotency_key : Option String)
    → IsSound db
    → ClosureReach false db (revoke_mandate host proof_uuids db mandate_id idempotency_key).1
unfolding revoke_mandate revoke_keyed revoke_open persist_mandate_revocation
    list_authorizations_by_mandate
revoke_mandate-Reach host proof_uuids db mandate_id idempotency_key sound =
    keyed-holds (λ d. ClosureReach false db d) host db revocations idempotency_key
      (revocation_request mandate_id) (revoke_keyed host proof_uuids db mandate_id) here
      (λ key hash. elim (Option-cases (get_mandate db mandate_id)) [
        | inl missing ↦ rw (revoke_keyed, missing) here
        | inr (mandate, there) ↦
            elim (Bool-cases (any_intended (list_authorizations_by_mandate db mandate_id))) [
              | inl intended ↦ rw (revoke_keyed, there, intended) here
              | inr free ↦
                  rw (revoke_keyed, there, free)
                    (revoked_or_thrown-Reach mandate_id key hash _ (λ ids after e.
                      revoke_each-Reach host proof_uuids host.now _ 0 ids
                        (All-select IsRowOnPath _ db.authorizations sound.rows)
                        (next here (elsewhere refl refl) (λ _. refl)) e))
            ]
      ])
