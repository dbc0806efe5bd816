-- ===== src/Closure/History/Tables.antt =====
-- apps/closure-api/src: the statements of repository.ts, and the closing of a decision, as histories
-- of the authorizations and the proofs.
use agentic_bank.Common.{
  ℕ, ◌≡◌, refl, ap, inl, inr, Bool, true, false, ◌||◌, Option, none, some, String, if◌then◌else◌,
  includes, find, is_some, >>=-some, ◌>>=◌, Bool-cases, select, ◌===◌, string_eq, not, ◌⊎◌,
}
use mathlib.Core.Path.{subst}
use agentic_bank.Protocol.State.{
  ProtocolState, ProtocolState_discrete, protocol_state_eq, is_successful_state_path,
  is_legal_state_path, every_step, is_legal_state_transition, legal_state_transitions, matches_path,
}
use agentic_bank.Protocol.Evaluator.{Mandate}
use agentic_bank.Closure.Types.{
  AuthorizationRecord, StoredProof, Value, Scope, ReconciliationJob, ClosureDb, commits,
}
use agentic_bank.Closure.Repository.{
  get_idempotency, save_idempotency, save_mandate, mandate_by_id, get_authorization, capsule_taken,
  save_authorization, is_expected, update_authorization, mark_authorization_closed, proof_by_id,
  proof_by_decision, get_proof_by_decision, save_proof, authorization_by_id, consume_capsule,
  is_consumed,
}
use agentic_bank.Closure.Repository.Jobs.{complete_job, enqueue_reconciliation_job}
use agentic_bank.Closure.Approve.{open_states}
use agentic_bank.Closure.Service.{
  ServiceHost, ServiceResult, with_tx, close_success, close_unless_proved, complete_found,
  save_commit, finish_posted_commit,
}
use agentic_bank.Closure.Service.Holds.{with_tx-holds}
use agentic_bank.Closure.History.{
  IsOnPath, IsAcceptable, authorizes, moves, closes, proves, elsewhere, ClosureReach, next,
}

pub some_injective : {A : Type 0} {a b : A} → some a ≡ some b → a ≡ b
some_injective e = cc

-- An INSERT that returns has met no key.
pub inserted :
    {A : Type 0} (taken : Bool) {db after : A}
    → (if taken then none else some db) ≡ some after
    → (taken ≡ false) × (after ≡ db)
inserted true e = cc
inserted false e = (refl, cc e)

pub if-cases :
    {A : Type 0} (b : Bool) {x y z : A}
    → (if b then x else y) ≡ z
    → ((b ≡ true) × (x ≡ z)) ⊎ ((b ≡ false) × (y ≡ z))
if-cases true e = inl (refl, e)
if-cases false e = inr (refl, e)

not_taken : {A : Type 0} (o : Option A) (b : Bool) → is_some o || b ≡ false → o ≡ none
not_taken none b e = refl
not_taken (some a) b e = cc

module _ {quiet : Bool} {start db : ClosureDb} (r : ClosureReach quiet start db) where
  pub save_idempotency-Reach :
      {after : ClosureDb} (scope : Scope) (key hash : String) (status : ℕ) (value : Value)
      → save_idempotency db scope key hash status value ≡ some after
      → ClosureReach quiet start after
  unfolding save_idempotency
  save_idempotency-Reach scope key hash status value e =
      let (_, same) = inserted (is_some (get_idempotency db scope key)) e in
      next r
        (elsewhere (ap (λ (d : ClosureDb). d.authorizations) same)
          (ap (λ (d : ClosureDb). d.proofs) same))
        (λ _. ap (λ (d : ClosureDb). d.core) same)

  pub save_mandate-Reach :
      {after : ClosureDb} (mandate_id customer_id : String) (envelope : Mandate)
      → save_mandate db mandate_id customer_id envelope ≡ some after
      → ClosureReach quiet start after
  unfolding save_mandate
  save_mandate-Reach mandate_id customer_id envelope e =
      let (_, same) = inserted (is_some (find (mandate_by_id mandate_id) db.mandates)) e in
      next r
        (elsewhere (ap (λ (d : ClosureDb). d.authorizations) same)
          (ap (λ (d : ClosureDb). d.proofs) same))
        (λ _. ap (λ (d : ClosureDb). d.core) same)

  pub save_proof-Reach :
      {after : ClosureDb} (proof_id decision_id : String) (proof : StoredProof)
      → IsAcceptable proof
      → save_proof db proof_id decision_id proof ≡ some after
      → ClosureReach quiet start after
  unfolding save_proof
  save_proof-Reach proof_id decision_id proof good e =
      let (_, same) =
        inserted
          (is_some (find (proof_by_id proof_id) db.proofs)
            || is_some (find (proof_by_decision decision_id) db.proofs))
          e in
      next r
        (proves (record { proof_id = proof_id; decision_id = decision_id; proof = proof }) good
          (ap (λ (d : ClosureDb). d.authorizations) same) (ap (λ (d : ClosureDb). d.proofs) same))
        (λ _. ap (λ (d : ClosureDb). d.core) same)

  pub save_authorization-Reach :
      {after : ClosureDb} (decision_id mandate_id action_id : String) (capsule_id : Option String)
      (state : ProtocolState) (stored : AuthorizationRecord)
      → IsOnPath state stored
      → save_authorization db decision_id mandate_id action_id capsule_id state stored ≡ some after
      → ClosureReach quiet start after
  unfolding save_authorization
  save_authorization-Reach decision_id mandate_id action_id capsule_id state stored on_path e =
      let (free, same) =
        inserted
          (is_some (get_authorization db decision_id) || capsule_taken capsule_id db.authorizations)
          e in
      next r
        (authorizes _ on_path
          (not_taken (get_authorization db decision_id) (capsule_taken capsule_id db.authorizations)
            free)
          (ap (λ (d : ClosureDb). d.authorizations) same) (ap (λ (d : ClosureDb). d.proofs) same))
        (λ _. ap (λ (d : ClosureDb). d.core) same)

  pub update_authorization-Reach :
      {after : ClosureDb} (decision_id : String) (from : ProtocolState) (version : ℕ)
      (to : ProtocolState) (capsule_id : Option String) (stored : AuthorizationRecord) (b : Bool)
      → IsOnPath to stored
      → (includes open_states from ≡ false → includes open_states to ≡ false)
      → update_authorization db decision_id from version to capsule_id stored ≡ some (b, after)
      → ClosureReach quiet start after
  unfolding update_authorization
  update_authorization-Reach {after} decision_id from version to capsule_id stored b on_path
        no_return e =
      elim (if-cases (is_some (find (is_expected decision_id from version) db.authorizations)) e) [
        | inr (_, stays) ↦
            let same : after ≡ db = cc stays in
            next r
              (elsewhere (ap (λ (d : ClosureDb). d.authorizations) same)
                (ap (λ (d : ClosureDb). d.proofs) same))
              (λ _. ap (λ (d : ClosureDb). d.core) same)
        | inl (_, moved) ↦
            let (_, same) =
              inserted
                (capsule_taken capsule_id
                  (select (λ row. not (authorization_by_id decision_id row)) db.authorizations))
                moved in
            next r
              (moves decision_id from to version capsule_id stored on_path no_return
                (ap (λ (p : Bool × ClosureDb). p.1.authorizations) same)
                (ap (λ (p : Bool × ClosureDb). p.1.proofs) same))
              (λ _. ap (λ (p : Bool × ClosureDb). p.1.core) same)
      ]

  pub mark_authorization_closed-Reach :
      (decision_id : String) → ClosureReach quiet start (mark_authorization_closed db decision_id)
  unfolding mark_authorization_closed
  mark_authorization_closed-Reach decision_id = next r (closes decision_id refl refl) (λ _. refl)

pub complete_found-Reach :
    {quiet : Bool} {start db : ClosureDb} (job : Option ReconciliationJob)
    → ClosureReach quiet start db
    → ClosureReach quiet start (complete_found db job)
unfolding complete_job
complete_found-Reach none r = r
complete_found-Reach (some job) r = next r (elsewhere refl refl) (λ _. refl)

pub close_unless_proved-Reach :
    {quiet : Bool} {start db after : ClosureDb} (decision_id : String) (proof : StoredProof)
    → ClosureReach quiet start db
    → IsAcceptable proof
    → close_unless_proved db decision_id proof ≡ some after
    → ClosureReach quiet start after
unfolding close_unless_proved
close_unless_proved-Reach {quiet = quiet} {start = start} {db = db} decision_id proof r good e =
    elim (if-cases (is_some (get_proof_by_decision db decision_id)) e) [
      | inl (_, same) ↦ subst (λ d. ClosureReach quiet start d) (some_injective same) r
      | inr (_, saves) ↦
          let (proved, s, rest) =
            >>=-some (save_proof db proof.proof_id decision_id proof) _ saves in
          subst (λ d. ClosureReach quiet start d) (some_injective rest)
            (complete_found-Reach _ (
              mark_authorization_closed-Reach
                (save_proof-Reach r proof.proof_id decision_id proof good s) decision_id))
    ]

save_commit-Reach :
    {quiet : Bool} {start db after : ClosureDb} (keys : Option (String × String)) (status : ℕ)
    (value : Value)
    → ClosureReach quiet start db
    → save_commit db keys status value ≡ some after
    → ClosureReach quiet start after
unfolding save_commit
save_commit-Reach {quiet = quiet} {start = start} none status value r e =
    subst (λ d. ClosureReach quiet start d) (some_injective e) r
save_commit-Reach (some keys) status value r e =
    save_idempotency-Reach r commits keys.0 keys.1 status value e

-- A decision is closed with an acceptable proof, and the answer is kept.
pub closed_with-Reach :
    {quiet : Bool} {start db : ClosureDb} (decision_id : String) (proof : StoredProof)
    (keys : Option (String × String)) (status : ℕ) (value : Value) (result : ServiceResult)
    → ClosureReach quiet start db
    → IsAcceptable proof
    → ClosureReach quiet start
        (with_tx db
          (close_unless_proved db decision_id proof >>= λ closed_.
            save_commit closed_ keys status value)
          result).1
closed_with-Reach {quiet = quiet} {start = start} {db = db} decision_id proof keys status value
      result r good =
    let saves = λ (closed_ : ClosureDb). save_commit closed_ keys status value in
    with_tx-holds (λ d. ClosureReach quiet start d) db
      (close_unless_proved db decision_id proof >>= saves) result r
      (λ after e.
        let (closed_, c, rest) = >>=-some (close_unless_proved db decision_id proof) saves e in
        save_commit-Reach keys status value (close_unless_proved-Reach decision_id proof r good c)
          rest)

success-IsAcceptable :
    (host : ServiceHost) (stored : AuthorizationRecord) (sequence at : ℕ)
    → IsAcceptable (close_success host stored sequence at)
unfolding close_success is_successful_state_path is_legal_state_path every_step
    is_legal_state_transition legal_state_transitions includes matches_path ProtocolState_discrete
success-IsAcceptable host stored sequence at = elim (Bool-cases (is_some stored.approval)) [
  | inl approval ↦ rw approval
  | inr direct ↦ rw direct
]

pub finish_posted_commit-Reach :
    {quiet : Bool} {start db : ClosureDb} (host : ServiceHost) (decision_id : String)
    (stored : AuthorizationRecord) (sequence at : ℕ) (keys : Option (String × String))
    → ClosureReach quiet start db
    → ClosureReach quiet start (finish_posted_commit host db decision_id stored sequence at keys).1
unfolding finish_posted_commit
finish_posted_commit-Reach host decision_id stored sequence at keys r =
    closed_with-Reach decision_id (close_success host stored sequence at) keys 201 _ _ r
      (success-IsAcceptable host stored sequence at)

pub enqueue-Reach :
    {quiet : Bool} {start db : ClosureDb} (job_id decision_id : String) (now limit : ℕ)
    → ClosureReach quiet start db
    → ClosureReach quiet start (enqueue_reconciliation_job db job_id decision_id now limit)
unfolding enqueue_reconciliation_job
enqueue-Reach {quiet = quiet} {start = start} {db = db} job_id decision_id now limit r =
    elim (Bool-cases
      (is_some (find (λ job. job.job_id === job_id || job.decision_id === decision_id) db.jobs))) [
        | inl there ↦ rw (enqueue_reconciliation_job, there) r
        | inr new ↦ rw (enqueue_reconciliation_job, new) (next r (elsewhere refl refl) (λ _. refl))
      ]

pub consume_capsule-Reach :
    {quiet : Bool} {start db : ClosureDb} (capsule_id : String) (at : ℕ)
    → ClosureReach quiet start db
    → ClosureReach quiet start (consume_capsule db capsule_id at).1
unfolding consume_capsule
consume_capsule-Reach {quiet = quiet} {start = start} {db = db} capsule_id at r =
    elim (Bool-cases (is_consumed capsule_id db.consumptions)) [
      | inl used ↦ rw (consume_capsule, used) r
      | inr new ↦ rw (consume_capsule, new) (next r (elsewhere refl refl) (λ _. refl))
    ]
