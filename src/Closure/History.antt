-- ===== src/Closure/History.antt =====
-- apps/closure-api/src: what the calls of the service do to the authorizations and to the proofs,
-- as the steps of a transition system, and what holds over its histories.
pub mod Tables
pub mod Reconcile
pub mod Commit
pub mod Worker
pub mod Cases
pub mod Register
pub mod Authorize
pub mod Approve
pub mod Revoke
use agentic_bank.Common.{
  find-All, ℕ, ◌≡◌, refl, sym, ap, ◌∙◌, inl, inr, Bool, true, false, Option, none, some, List, [],
  ◌∷◌, ◌++◌, String, if◌then◌else◌, string_eq, includes, find-append, find-update, update, All,
  All-append, All-update, arith, Bool-cases,
}
use agentic_bank.Protocol.State.{
  ProtocolState, ProtocolState_discrete, protocol_state_eq, proposed, authorized, step_up_required,
  approved, is_successful_state_path, is_negative_closed_path,
}
use agentic_bank.Closure.Types.{
  AuthorizationRecord, AuthorizationRow, StoredProof, ProofRow, ClosureDb,
}
use agentic_bank.Closure.Repository.{
  get_authorization, authorization_by_id, is_expected, moved_to, as_closed,
}
use agentic_bank.Closure.Approve.{open_states}

-- The path of an authorization that may still be approved, committed or revoked.
abbrev pub open_path : ProtocolState → Option (List ProtocolState)
open_path authorized = some (proposed ∷ authorized ∷ [])
open_path step_up_required = some (proposed ∷ step_up_required ∷ [])
open_path approved = some (proposed ∷ step_up_required ∷ approved ∷ [])
open_path _ = none

abbrev pub IsOnPath : ProtocolState → AuthorizationRecord → Type 0
IsOnPath state stored =
    (path : List ProtocolState) → open_path state ≡ some path → stored.state_path ≡ path

abbrev pub IsRowOnPath : AuthorizationRow → Type 0
IsRowOnPath row = IsOnPath row.state row.stored

-- The path of a proof is one that the protocol accepts for its kind.
abbrev pub IsAcceptable : StoredProof → Type 0
IsAcceptable proof = elim proof.terminal_reason [
  | none ↦ is_successful_state_path proof.state_path ≡ true
  | some reason ↦ is_negative_closed_path proof.state_path reason ≡ true
]

-- A row enters, moves by compare and swap or is closed, a proof is added, or neither table changes.
-- No row moves back to an open state.
pub data ClosureStep (db after : ClosureDb) : Type 0 where
  authorizes :
      (row : AuthorizationRow)
      → IsRowOnPath row
      → get_authorization db row.decision_id ≡ none
      → after.authorizations ≡ db.authorizations ++ row ∷ []
      → after.proofs ≡ db.proofs
      → ClosureStep db after
  moves :
      (decision_id : String) (from to : ProtocolState) (version : ℕ) (capsule_id : Option String)
      (stored : AuthorizationRecord)
      → IsOnPath to stored
      → (includes open_states from ≡ false → includes open_states to ≡ false)
      → after.authorizations
        ≡ update
            (is_expected decision_id from version)
            (moved_to to capsule_id stored)
            db.authorizations
      → after.proofs ≡ db.proofs
      → ClosureStep db after
  closes :
      (decision_id : String)
      → after.authorizations ≡ update (authorization_by_id decision_id) as_closed db.authorizations
      → after.proofs ≡ db.proofs
      → ClosureStep db after
  proves :
      (row : ProofRow)
      → IsAcceptable row.proof
      → after.authorizations ≡ db.authorizations
      → after.proofs ≡ db.proofs ++ row ∷ []
      → ClosureStep db after
  elsewhere :
      after.authorizations ≡ db.authorizations → after.proofs ≡ db.proofs → ClosureStep db after

-- On a quiet history the tables of the core stay as they are.
pub data ClosureReach (quiet : Bool) (db : ClosureDb) : ClosureDb → Type 0 where
  here : ClosureReach quiet db db
  next :
      {middle after : ClosureDb}
      → ClosureReach quiet db middle
      → ClosureStep middle after
      → (quiet ≡ true → after.core ≡ middle.core)
      → ClosureReach quiet db after

pub record IsSound (db : ClosureDb) : Type 0 where
  pub rows : All IsRowOnPath db.authorizations
  pub proved : All (λ (row : ProofRow). IsAcceptable row.proof) db.proofs

All-as_closed :
    (id : String) (rows : List AuthorizationRow)
    → All IsRowOnPath rows
    → All IsRowOnPath (update (authorization_by_id id) as_closed rows)
All-as_closed id rows h =
    All-update IsRowOnPath (authorization_by_id id) as_closed rows (λ row k path e. absurd (cc)) h

pub ClosureStep-IsSound : {db after : ClosureDb} → ClosureStep db after → IsSound db → IsSound after
ClosureStep-IsSound {db} (authorizes row on_path fresh rows proofs) s = record {
  rows = rw rows (All-append IsRowOnPath db.authorizations (row ∷ []) s.rows (on_path, tt));
  proved = rw proofs s.proved;
}
ClosureStep-IsSound {db} (moves id from to version capsule_id stored on_path no_return rows proofs)
      s =
    record {
      rows = rw rows (
          All-update IsRowOnPath (is_expected id from version) (moved_to to capsule_id stored)
            db.authorizations (λ row h. on_path) s.rows);
      proved = rw proofs s.proved;
    }
ClosureStep-IsSound {db} (closes id rows proofs) s = record {
  rows = rw rows (All-as_closed id db.authorizations s.rows);
  proved = rw proofs s.proved;
}
ClosureStep-IsSound {db} (proves row good rows proofs) s = record {
  rows = rw rows s.rows;
  proved = rw proofs (
      All-append (λ (r : ProofRow). IsAcceptable r.proof) db.proofs (row ∷ []) s.proved (good, tt));
}
ClosureStep-IsSound (elsewhere rows proofs) s = record {
  rows = rw rows s.rows;
  proved = rw proofs s.proved;
}

pub ClosureReach-IsSound :
    {quiet : Bool} {db after : ClosureDb} → ClosureReach quiet db after → IsSound db → IsSound after
ClosureReach-IsSound here s = s
ClosureReach-IsSound (next r step same) s = ClosureStep-IsSound step (ClosureReach-IsSound r s)

-- A decision that is past the open states.
abbrev pub IsSpent : ClosureDb → String → Type 0
IsSpent db decision_id =
    (row : AuthorizationRow) × (get_authorization db decision_id ≡ some row)
    × (includes open_states row.state ≡ false)

moved_spent :
    (id : String) (from to : ProtocolState) (version : ℕ) (capsule_id : Option String)
    (stored : AuthorizationRecord) (old : AuthorizationRow)
    → (includes open_states from ≡ false → includes open_states to ≡ false)
    → includes open_states old.state ≡ false
    → includes open_states
        (if is_expected id from version old then moved_to to capsule_id stored old else old).state
      ≡ false
moved_spent id from to version capsule_id stored old no_return spent =
    elim (Bool-cases (is_expected id from version old)) [
      | inr miss ↦ rw miss spent
      | inl hit ↦
          let same : old.state ≡ from = ground (arith, hit) in
          rw hit (no_return (ap (λ s. includes open_states s) (sym same) ∙ spent))
    ]

closed_spent :
    (id : String) (old : AuthorizationRow)
    → includes open_states old.state ≡ false
    → includes open_states (if authorization_by_id id old then as_closed old else old).state ≡ false
unfolding includes ProtocolState_discrete
closed_spent id old spent = elim (Bool-cases (authorization_by_id id old)) [
  | inl hit ↦ rw hit
  | inr miss ↦ rw miss spent
]

pub ClosureStep-IsSpent :
    {db after : ClosureDb} (decision_id : String)
    → ClosureStep db after
    → IsSpent db decision_id
    → IsSpent after decision_id
unfolding get_authorization
ClosureStep-IsSpent {db} d (authorizes row on_path fresh rows proofs) (old, e, spent) =
    (old, rw (rows, find-append (authorization_by_id d) db.authorizations (row ∷ []), e), spent)
ClosureStep-IsSpent {db} d
      (moves id from to version capsule_id stored on_path no_return rows proofs) (old, e, spent) =
    (
      if is_expected id from version old then moved_to to capsule_id stored old else old,
      rw (
        rows,
        find-update (authorization_by_id d) (is_expected id from version)
            (moved_to to capsule_id stored) db.authorizations (λ x. refl),
        e,
      ),
      moved_spent id from to version capsule_id stored old no_return spent,
    )
ClosureStep-IsSpent {db} d (closes id rows proofs) (old, e, spent) = (
  if authorization_by_id id old then as_closed old else old,
  rw (
    rows,
    find-update (authorization_by_id d) (authorization_by_id id) as_closed db.authorizations
        (λ x. refl),
    e,
  ),
  closed_spent id old spent,
)
ClosureStep-IsSpent d (proves row good rows proofs) (old, e, spent) = (old, rw rows e, spent)
ClosureStep-IsSpent d (elsewhere rows proofs) (old, e, spent) = (old, rw rows e, spent)

pub ClosureReach-IsSpent :
    {quiet : Bool} {db after : ClosureDb} (decision_id : String)
    → ClosureReach quiet db after
    → IsSpent db decision_id
    → IsSpent after decision_id
ClosureReach-IsSpent d here s = s
ClosureReach-IsSpent d (next r step same) s =
    ClosureStep-IsSpent d step (ClosureReach-IsSpent d r s)

pub append_reach :
    {quiet : Bool} {db middle after : ClosureDb}
    → ClosureReach quiet db middle
    → ClosureReach quiet middle after
    → ClosureReach quiet db after
append_reach r here = r
append_reach r (next q step same) = next (append_reach r q) step same

-- A row that is found is on its path.
pub found_on_path :
    (db : ClosureDb) (decision_id : String) (row : AuthorizationRow)
    → IsSound db
    → get_authorization db decision_id ≡ some row
    → IsRowOnPath row
unfolding get_authorization
found_on_path db decision_id row sound there =
    find-All IsRowOnPath (authorization_by_id decision_id) db.authorizations row sound.rows there

pub quiet-core : {db after : ClosureDb} → ClosureReach true db after → after.core ≡ db.core
quiet-core here = refl
quiet-core (next r step same) = same refl ∙ quiet-core r

pub from_quiet : {db after : ClosureDb} → ClosureReach true db after → ClosureReach false db after
from_quiet here = here
from_quiet (next r step same) = next (from_quiet r) step (λ x. absurd (cc x))
