-- ===== src/Agents.antt =====
-- packages/core/src/agents.ts: what the tools of the agents share. Each call runs in one
-- transaction: `none` is a thrown error, after which the database is as before.
pub mod Args
pub mod Tools
pub mod Decide
pub mod Transfer
pub mod Execution
pub mod Untouched
pub mod Memory
pub mod Refinement
use agentic_bank.Common.{
  ℕ, ◌+◌, Bool, true, false, not, ◌&&◌, ◌||◌, Option, none, some, List, [], ◌∷◌, ◌++◌, String, ℤ,
  pos, ltb, if◌then◌else◌, ◌===◌, string_eq, option_eq, find, includes, select, update, delete,
  trim, ◌>>=◌, ◌>>◌, throw_if, is_some, Number, int, non_int, same_number, show_number,
}
use Prim.Native.String.{◌++◌ as ◌<>◌}
use agentic_bank.Store.{
  Account, Journal, AuditRow, Session, SessionPolicy, Trace, ToolResult, ToolData, no_data, Db,
}
use agentic_bank.Store.Args.{
  Json, Items, Fields, null, bool, num, str, arr, obj, nil, cons, end, field, get_field, set_field,
}
use agentic_bank.Store.Types.{
  Actor, Action, AgentName, BlastRadius, Decision, RuleId, action_eq, agent_name, action_name,
}
use agentic_bank.Audit.{WriteAuditInput, write_audit}
use agentic_bank.Audit.Redact.{redact_args}
use agentic_bank.Ledger.Write.{FreshIds}
use agentic_bank.Operator.{require_audit}
use agentic_bank.Policy.{copy_posted, copy_pending, copy_denied}

-- What one run of `policy.decide` draws: random ids and readings of the clock.
pub record DecideDraws : Type 0 where
  pub audit_uuid : String
  pub trace_uuid : String
  pub policy_at : ℕ
  pub audit_at : ℕ
  pub remembered_at : ℕ
  pub trace_at : ℕ

-- What the host gives to one call: `Number(text)`, the random ids and the readings of the clock.
pub record Host : Type 0 where
  pub number_of : String → Number
  pub audit_uuid : String
  pub trace_uuid : String
  pub dispute_uuid : String
  pub journal_uuids : FreshIds
  pub decide_draws : DecideDraws
  pub live_at : ℕ
  pub journal_at : ℕ
  pub dispute_at : ℕ
  pub audit_at : ℕ
  pub trace_at : ℕ

abbrev pub session_by_id : String → Session → Bool
session_by_id i s = s.id === i

unfoldable pub get_session : Db → String → Option Session
get_session db session_id = find (session_by_id session_id) db.sessions

max_seq : List Trace → ℕ
max_seq [] = 0
max_seq (t ∷ ts) = let rest = max_seq ts in if ltb rest t.seq then t.seq else rest

-- COALESCE(MAX(seq), 0) + 1, and the INSERT.
unfoldable pub append_trace : Db → Session → Action → Fields → ToolResult → String → ℕ → Option Db
unfolding max_seq
append_trace db session action args result uuid now = do
  throw_if (is_some (find (λ t. t.id === uuid) db.traces))
  throw_if (not (is_some (get_session db session.id)))
  let row : Trace = record {
    id = uuid;
    session_id = session.id;
    seq = max_seq (select (λ t. t.session_id === session.id) db.traces) + 1;
    agent = session.current_agent;
    action = action;
    args = redact_args (obj args);
    result = result;
    created_at = now;
  }
  some (record db { traces = db.traces ++ row ∷ [] })

unfoldable pub link_decide_audit : Db → String → String → Db
link_decide_audit db decide_audit_id journal_id = record db {
  audit =
      update (λ a. a.audit_id === decide_audit_id && not (is_some a.journal_id))
        (λ a. record a { journal_id = some journal_id }) db.audit;
}

-- The arguments of `writeAudit` as the tools call it.
abbrev pub tool_audit :
    Option String → Actor → Action → Fields → Decision → RuleId → String → Session → WriteAuditInput
tool_audit audit_id actor action args decision rule_id reason session = record {
  audit_id = audit_id;
  actor = actor;
  action = action;
  args = obj args;
  decision = decision;
  rule_id = rule_id;
  reason = reason;
  why = none;
  blast_radius = none;
  session_id = some session.id;
  journal_id = none;
  agent = some session.current_agent;
  timestamp = none;
}

-- A result with the six fields that every tool sets.
abbrev pub tool_result : Bool → String → Decision → RuleId → String → String → ToolResult
tool_result ok copy decision rule_id reason audit_id = record {
  ok = ok;
  copy = copy;
  decision = decision;
  rule_id = rule_id;
  reason = reason;
  audit_id = audit_id;
  blast_radius = none;
  decision_ref = none;
  journal_id = none;
  journal_status = none;
  result_data = no_data;
}

-- Most branches write an audit row, build a result on it, and append it to the trace.
unfoldable pub logged :
    Host
    → Db
    → Session
    → WriteAuditInput
    → (AuditRow → String → ToolResult)
    → Action
    → Fields
    → Option (ToolResult × Db)
logged host db session row result action args = do
  (audit, with_audit) ← write_audit db row host.audit_uuid host.audit_at
  audit_id ← require_audit audit
  with_trace ←
      append_trace with_audit session action args (result audit audit_id) host.trace_uuid
        host.trace_at
  some (result audit audit_id, with_trace)

-- The tools of each agent.
unfoldable pub agent_tools : AgentName → List Action
agent_tools AgentName.teller = Action.balance ∷ Action.handoff ∷ []
agent_tools AgentName.transfer = Action.balance ∷ Action.policy_decide ∷ Action.transfer ∷ []
agent_tools AgentName.dispute = Action.balance ∷ Action.open_dispute ∷ []

unfoldable pub is_allowed : AgentName → Action → Bool
unfolding agent_tools
is_allowed agent action = includes (agent_tools agent) action

-- `assertAgentTool` for a tool that is not allowed, with the trace that its caller appends.
unfoldable pub deny_tool :
    Host → Db → Session → Action → Fields → Actor → Option String → Option (ToolResult × Db)
deny_tool host db session action args actor audit_id =
    logged host db session
      (record (tool_audit audit_id actor action args Decision.deny_policy RuleId.agent_tool_denied
        reason session) { blast_radius = some BlastRadius.medium })
      (λ audit id.
        record (tool_result false "이 에이전트는 해당 도구를 호출할 수 없습니다. 핸드오프가 필요합니다." Decision.deny_policy
          RuleId.agent_tool_denied reason id) { blast_radius = some audit.blast_radius })
      action args
  where
    reason : String
    reason =
        agent_name session.current_agent
        <> " cannot call "
        <> action_name action
        <> "; handoff required"

-- SQLite stores `NaN` as NULL, which the column refuses.
abbrev is_nan : Number → Bool
is_nan (int _) = false
is_nan (non_int s) = s === "NaN"

unfoldable pub remember_policy :
    Db → String → String → String → Number → Decision → RuleId → String → ℕ → Option Db
remember_policy db session_id from to amount decision rule_id decide_audit_id now = do
  throw_if (is_nan amount)
  throw_if (not (is_some (get_session db session_id)))
  let row : SessionPolicy = record {
    session_id = session_id;
    from_account_id = from;
    to_account_id = to;
    amount = amount;
    decision = decision;
    rule_id = rule_id;
    decide_audit_id = decide_audit_id;
    decided_at = now;
  }
  some (record db {
    session_policy = delete (λ p. p.session_id === session_id) db.session_policy ++ row ∷ [];
  })

unfoldable pub matching_policy : Db → String → String → String → Number → Option SessionPolicy
matching_policy db session_id from to amount =
    elim (find (λ p. p.session_id === session_id) db.session_policy) [
      | none ↦ none
      | some row ↦
          if row.from_account_id === from
            && row.to_account_id === to
            && same_number row.amount amount
            && not (row.decide_audit_id === "")
          then some row
          else none
    ]

unfoldable pub copy_for_decision : Decision → String
copy_for_decision Decision.allow = copy_posted
copy_for_decision Decision.dual_control = copy_pending
copy_for_decision _ = copy_denied

-- An unknown customer throws, and so does an id that is taken.
unfoldable pub start_session : Db → String → String → ℕ → Option (Session × Db)
start_session db customer_id uuid now = do
  throw_if (not (is_some (find (λ c. c === customer_id) db.customers)))
  throw_if (is_some (get_session db uuid))
  let session : Session = record {
    id = uuid;
    customer_id = customer_id;
    current_agent = AgentName.teller;
    created_at = now;
  }
  some (session, record db { sessions = db.sessions ++ session ∷ [] })
