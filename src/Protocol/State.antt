-- ===== src/Protocol/State.antt =====
-- packages/protocol/src/state.ts: the states of an action and the paths that a proof may show.
pub mod Paths
use agentic_bank.Common.{
  Bool, true, false, not, ◌&&◌, ◌||◌, Option, none, some, List, [], ◌∷◌, ◌≡◌, Eq, ◌===◌, option_eq,
  includes,
}

pub data ProtocolState : Type 0 where
  proposed authorized authorization_denied step_up_required approved : ProtocolState
  execution_intent_recorded executed execution_failed execution_unknown : ProtocolState
  cancelled expired revoked closed : ProtocolState

pub data NegativeTerminalReason : Type 0 where
  authorization_denied revoked expired execution_failed : NegativeTerminalReason

unfoldable pub ProtocolState_discrete : (a b : ProtocolState) → Dec (a ≡ b)
ProtocolState_discrete = hlevel

instance abbrev pub protocol_state_eq : Eq ProtocolState
protocol_state_eq = record { dec_eq = ProtocolState_discrete }

-- A reason is the name of a state.
abbrev pub state_of : NegativeTerminalReason → ProtocolState
state_of NegativeTerminalReason.authorization_denied = ProtocolState.authorization_denied
state_of NegativeTerminalReason.revoked = ProtocolState.revoked
state_of NegativeTerminalReason.expired = ProtocolState.expired
state_of NegativeTerminalReason.execution_failed = ProtocolState.execution_failed

abbrev pub successful_state_path : List ProtocolState
successful_state_path = proposed ∷ authorized ∷ execution_intent_recorded ∷ executed ∷ closed ∷ []

abbrev pub successful_step_up_state_path : List ProtocolState
successful_step_up_state_path =
    proposed ∷ step_up_required ∷ approved ∷ execution_intent_recorded ∷ executed ∷ closed ∷ []

unfoldable pub legal_state_transitions : ProtocolState → List ProtocolState
legal_state_transitions proposed =
    authorized ∷ ProtocolState.authorization_denied ∷ step_up_required ∷ cancelled
    ∷ ProtocolState.expired ∷ ProtocolState.revoked ∷ []
legal_state_transitions authorized =
    execution_intent_recorded ∷ cancelled ∷ ProtocolState.expired ∷ ProtocolState.revoked ∷ []
legal_state_transitions ProtocolState.authorization_denied = closed ∷ []
legal_state_transitions step_up_required =
    approved ∷ ProtocolState.authorization_denied ∷ ProtocolState.expired ∷ ProtocolState.revoked
    ∷ []
legal_state_transitions approved =
    execution_intent_recorded ∷ cancelled ∷ ProtocolState.expired ∷ ProtocolState.revoked ∷ []
legal_state_transitions execution_intent_recorded =
    executed ∷ ProtocolState.execution_failed ∷ execution_unknown ∷ []
legal_state_transitions execution_unknown = executed ∷ ProtocolState.execution_failed ∷ []
legal_state_transitions executed = closed ∷ []
legal_state_transitions ProtocolState.execution_failed = closed ∷ []
legal_state_transitions cancelled = closed ∷ []
legal_state_transitions ProtocolState.expired = closed ∷ []
legal_state_transitions ProtocolState.revoked = closed ∷ []
legal_state_transitions closed = []

unfoldable pub is_legal_state_transition : ProtocolState → ProtocolState → Bool
unfolding legal_state_transitions includes
is_legal_state_transition from to = includes (legal_state_transitions from) to

-- Each state after the first follows legally from the one before.
unfoldable pub every_step : ProtocolState → List ProtocolState → Bool
every_step from [] = true
every_step from (to ∷ rest) = is_legal_state_transition from to && every_step to rest

unfoldable pub is_legal_state_path : List ProtocolState → Bool
is_legal_state_path [] = false
is_legal_state_path (first ∷ rest) = every_step first rest

unfoldable pub matches_path : List ProtocolState → List ProtocolState → Bool
matches_path [] [] = true
matches_path [] (q ∷ qs) = false
matches_path (p ∷ ps) [] = false
matches_path (p ∷ ps) (q ∷ qs) = p === q && matches_path ps qs

unfoldable pub is_successful_state_path : List ProtocolState → Bool
is_successful_state_path path =
    is_legal_state_path path
    && (matches_path path successful_state_path || matches_path path successful_step_up_state_path)

unfoldable pub is_successful_step_up_state_path : List ProtocolState → Bool
is_successful_step_up_state_path path =
    is_legal_state_path path && matches_path path successful_step_up_state_path

-- `path[0]` and `path[path.length - 1]`
abbrev pub first_of : List ProtocolState → Option ProtocolState
first_of [] = none
first_of (s ∷ rest) = some s

abbrev pub last_of : List ProtocolState → Option ProtocolState
last_of [] = none
last_of (s ∷ []) = some s
last_of (s ∷ (t ∷ rest)) = last_of (t ∷ rest)

unfoldable pub is_negative_closed_path : List ProtocolState → NegativeTerminalReason → Bool
is_negative_closed_path path terminal_reason =
    is_legal_state_path path
    && first_of path === some proposed
    && last_of path === some closed
    && includes path (state_of terminal_reason)
    && not (is_successful_state_path path)
