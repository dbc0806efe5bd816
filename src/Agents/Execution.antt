-- ===== src/Agents/Execution.antt =====
-- packages/core/src/agents.ts, `executeTool`: the session, the agent's tools, and the call.
use agentic_bank.Common.{Option, none, String, if◌then◌else◌, ◌>>=◌}
use agentic_bank.Store.{Session, ToolResult, Db}
use agentic_bank.Store.Args.{Fields}
use agentic_bank.Store.Types.{Actor, Action}
use agentic_bank.Audit.{get_or}
use agentic_bank.Agents.{Host, get_session, is_allowed, deny_tool}
use agentic_bank.Agents.Tools.{tool_balance, tool_handoff, tool_open_dispute}
use agentic_bank.Agents.Decide.{tool_policy_decide}
use agentic_bank.Agents.Transfer.Write.{tool_transfer}

pub record ToolInput : Type 0 where
  pub session_id : String
  pub action : Action
  pub args : Fields
  pub actor : Option Actor
  pub audit_id : Option String

-- The tool of an action; the other actions are no tools.
unfoldable pub run_tool :
    Host → Db → Session → Actor → Action → Fields → Option String → Option (ToolResult × Db)
run_tool host db session actor Action.balance args audit_id =
    tool_balance host db session actor args audit_id
run_tool host db session actor Action.handoff args audit_id =
    tool_handoff host db session actor args audit_id
run_tool host db session actor Action.policy_decide args audit_id =
    tool_policy_decide host db session actor args audit_id
run_tool host db session actor Action.transfer args audit_id =
    tool_transfer host db session actor args audit_id
run_tool host db session actor Action.open_dispute args audit_id =
    tool_open_dispute host db session actor args audit_id
run_tool host db session actor _ args audit_id = none

unfoldable pub execute_tool : Host → Db → ToolInput → Option (ToolResult × Db)
execute_tool host db input = get_session db input.session_id >>= λ session.
    if is_allowed session.current_agent input.action
    then run_tool host db session (get_or input.actor Actor.agent) input.action input.args
        input.audit_id
    else deny_tool host db session input.action input.args (get_or input.actor Actor.agent)
        input.audit_id
