-- ===== src/Tests/Protocol.antt =====
-- The protocol's theorems at the paths of an executed, a stepped-up and a denied action.
use agentic_bank.Common.{
  ◌≡◌, ◌≤◌, refl, true, ◌||◌, List, [], ◌∷◌, includes, length, Option_discrete,
}
use agentic_bank.Protocol.State.{
  ProtocolState, NegativeTerminalReason, protocol_state_eq, proposed, step_up_required, approved,
  authorized, execution_intent_recorded, execution_unknown, executed, closed,
  ProtocolState_discrete, is_legal_state_transition, legal_state_transitions, every_step,
  is_legal_state_path, is_negative_closed_path, is_successful_state_path, matches_path,
}
use agentic_bank.Protocol.State.Paths.{is_legal_state_path-length, is_legal_state_path-authorized}

-- The longest path: stepped up, and unknown for a while.
abbrev longest : List ProtocolState
longest =
    proposed ∷ step_up_required ∷ approved ∷ execution_intent_recorded ∷ execution_unknown
    ∷ executed ∷ closed ∷ []

longest_legal : is_legal_state_path longest ≡ true
unfolding is_legal_state_path every_step is_legal_state_transition legal_state_transitions includes
    ProtocolState_discrete
longest_legal = refl

is_legal_state_path-length_example : length longest ≤ 7
is_legal_state_path-length_example = is_legal_state_path-length longest longest_legal

abbrev denied : List ProtocolState
denied = proposed ∷ ProtocolState.authorization_denied ∷ closed ∷ []

denied_negative : is_negative_closed_path denied NegativeTerminalReason.authorization_denied ≡ true
unfolding is_negative_closed_path is_successful_state_path matches_path is_legal_state_path
    every_step is_legal_state_transition legal_state_transitions includes ProtocolState_discrete
    Option_discrete
denied_negative = refl

abbrev later_states : List ProtocolState
later_states = authorized ∷ execution_intent_recorded ∷ executed ∷ closed ∷ []

later_legal : is_legal_state_path (proposed ∷ later_states) ≡ true
unfolding is_legal_state_path every_step is_legal_state_transition legal_state_transitions includes
    ProtocolState_discrete
later_legal = refl

later_executed : includes later_states executed ≡ true
unfolding includes ProtocolState_discrete
later_executed = refl

is_legal_state_path-authorized_example :
    (includes later_states execution_intent_recorded ≡ true)
    × ((includes later_states authorized || includes later_states approved) ≡ true)
is_legal_state_path-authorized_example =
    is_legal_state_path-authorized later_states later_legal later_executed
