-- ===== src/Protocol/State/Paths.antt =====
-- packages/protocol/src/state.ts: what every legal path is like.
use agentic_bank.Common.{
  ℕ, ap, ◌∙◌, ◌≤◌, ◌<◌, ◌≡◌, ◌≢◌, ◌⊎◌, inl, inr, refl, true, false, ◌||◌, List, [], ◌∷◌, includes,
  length, Bool-cases, arith,
}
use agentic_bank.Protocol.State.{
  ProtocolState, proposed, authorized, step_up_required, approved, execution_intent_recorded,
  executed, execution_unknown, closed, NegativeTerminalReason, state_of, ProtocolState_discrete,
  protocol_state_eq, legal_state_transitions, is_legal_state_transition, every_step,
  is_legal_state_path, is_negative_closed_path,
}

-- How many states can follow.
abbrev rank : ProtocolState → ℕ
rank proposed = 6
rank step_up_required = 5
rank authorized = 4
rank approved = 4
rank execution_intent_recorded = 3
rank execution_unknown = 2
rank closed = 0
rank _ = 1

is_legal_state_transition-descends :
    (from to : ProtocolState) → is_legal_state_transition from to ≡ true → rank to < rank from
unfolding is_legal_state_transition legal_state_transitions includes
is_legal_state_transition-descends from to h = ground arith

every_step-length :
    (from : ProtocolState) (rest : List ProtocolState)
    → every_step from rest ≡ true
    → length rest ≤ rank from
unfolding every_step
every_step-length from [] h = omega arith
every_step-length from (to ∷ rest) h = elim (Bool-cases (is_legal_state_transition from to)) [
  | inl legal ↦
      let first = is_legal_state_transition-descends from to legal in
      let later = every_step-length to rest (ground arith) in omega (arith, first, later)
  | inr illegal ↦ absurd (ground arith)
]

-- No legal path is longer than seven states.
pub is_legal_state_path-length :
    (path : List ProtocolState) → is_legal_state_path path ≡ true → length path ≤ 7
unfolding is_legal_state_path
is_legal_state_path-length [] h = omega arith
is_legal_state_path-length (first ∷ rest) h =
    let later = every_step-length first rest h in omega (arith, later, rank_le first)
  where
    rank_le : (s : ProtocolState) → rank s ≤ 6
    rank_le s = ground arith

-- The reasons are states that only `closed` follows.
end_of : (n : NegativeTerminalReason) → rank (state_of n) ≡ 1
end_of n = ground arith

after_end :
    (s to : ProtocolState) (rest : List ProtocolState)
    → rank s ≡ 1
    → every_step s (to ∷ rest) ≡ true
    → (to ≡ closed) × (rest ≡ [])
unfolding every_step is_legal_state_transition legal_state_transitions includes
after_end s to [] e h = (ground arith, refl)
after_end s to (next ∷ rest) e h = absurd (ground arith)

-- A path that shows a negative reason shows no execution.
negative_not_executed :
    (n : NegativeTerminalReason) (from : ProtocolState) (rest : List ProtocolState)
    → every_step from rest ≡ true
    → includes (from ∷ rest) (state_of n) ≡ true
    → includes (from ∷ rest) executed ≡ false
unfolding includes every_step
negative_not_executed n from [] h k = ground arith
negative_not_executed n from (to ∷ rest) h k = elim (ProtocolState_discrete from (state_of n)) [
  | yes hit ↦
      let (last, none_left) = after_end from to rest (ap rank hit ∙ end_of n) h in ground arith
  | no miss ↦ elim (ProtocolState_discrete from executed) [
    | yes done ↦ let (last, none_left) = after_end from to rest (ap rank done) h in ground arith
    | no other ↦
        let later = negative_not_executed n to rest (ground arith) (ground arith) in ground arith
  ]
]

-- A path that is accepted as a negative closure for one of the reasons shows no execution.
pub is_negative_closed_path-not_executed :
    (path : List ProtocolState) (n : NegativeTerminalReason)
    → is_negative_closed_path path n ≡ true
    → includes path executed ≡ false
unfolding is_negative_closed_path is_legal_state_path
is_negative_closed_path-not_executed [] n h = absurd (ground arith)
is_negative_closed_path-not_executed (from ∷ rest) n h =
    negative_not_executed n from rest (ground arith) (ground arith)

-- After a step to an end that is no execution there is none.
no_execution :
    (to : ProtocolState) (rest : List ProtocolState)
    → rank to ≡ 1
    → every_step to rest ≡ true
    → to ≢ executed
    → includes (to ∷ rest) executed ≡ false
unfolding includes
no_execution to [] e h other = ground arith
no_execution to (next ∷ rest) e h other =
    let (last, none_left) = after_end to next rest e h in ground arith

-- Where a path can go from a state in which nothing is intended yet.
intent_branches :
    (from to : ProtocolState)
    → 4 ≤ rank from
    → is_legal_state_transition from to ≡ true
    → (to ≡ execution_intent_recorded) ⊎ ((4 ≤ rank to) ⊎ ((rank to ≡ 1) × (to ≢ executed)))
unfolding is_legal_state_transition legal_state_transitions includes
intent_branches from to early legal = ground arith

intended :
    (from : ProtocolState) (rest : List ProtocolState)
    → 4 ≤ rank from
    → every_step from rest ≡ true
    → includes rest executed ≡ true
    → includes rest execution_intent_recorded ≡ true
unfolding every_step includes
intended from [] early h k = ground arith
intended from (to ∷ rest) early h k = elim (intent_branches from to early (ground arith)) [
  | inl intent ↦ ground arith
  | inr (inl still) ↦
      let later = intended to rest still (ground arith) in
      let not_yet : to ≢ executed = λ e. ground arith in ground arith
  | inr (inr (e, other)) ↦
      let none_left = no_execution to rest e (ground arith) other in absurd (ground arith)
]

allowed_branches :
    (from to : ProtocolState)
    → 5 ≤ rank from
    → is_legal_state_transition from to ≡ true
    → ((to ≡ authorized) ⊎ (to ≡ approved)) ⊎ ((5 ≤ rank to) ⊎ ((rank to ≡ 1) × (to ≢ executed)))
unfolding is_legal_state_transition legal_state_transitions includes
allowed_branches from to early legal = ground arith

allowed :
    (from : ProtocolState) (rest : List ProtocolState)
    → 5 ≤ rank from
    → every_step from rest ≡ true
    → includes rest executed ≡ true
    → (includes rest authorized || includes rest approved) ≡ true
unfolding every_step includes
allowed from [] early h k = absurd (ground arith)
allowed from (to ∷ rest) early h k = elim (allowed_branches from to early (ground arith)) [
  | inl (inl yes_) ↦ ground arith
  | inl (inr yes_) ↦ ground arith
  | inr (inl still) ↦
      let later = allowed to rest still (ground arith) (ground arith) in ground arith
  | inr (inr (e, other)) ↦
      let none_left = no_execution to rest e (ground arith) other in absurd (ground arith)
]

-- On a legal path from `proposed`, an execution comes with a recorded intent, and with an
-- authorization or an approval.
pub is_legal_state_path-authorized :
    (rest : List ProtocolState)
    → is_legal_state_path (proposed ∷ rest) ≡ true
    → includes rest executed ≡ true
    → (includes rest execution_intent_recorded ≡ true)
      × ((includes rest authorized || includes rest approved) ≡ true)
unfolding is_legal_state_path
is_legal_state_path-authorized rest h k =
    (intended proposed rest (omega arith) h k, allowed proposed rest (omega arith) h k)
