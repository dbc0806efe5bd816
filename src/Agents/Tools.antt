-- ===== src/Agents/Tools.antt =====
-- packages/core/src/agents.ts: `toolBalance`, `toolHandoff` and `toolOpenDispute`.
use agentic_bank.Common.{
  Bool, true, false, not, ◌&&◌, Option, none, some, [], ◌∷◌, ◌++◌, String, if◌then◌else◌, ◌===◌,
  string_eq, option_eq, find, update, ◌>>=◌, ◌>>◌, throw_if, is_some,
}
use Prim.Native.String.{◌++◌ as ◌<>◌}
use agentic_bank.Store.{
  Account, AccountView, Session, Dispute, ToolResult, Db, view, current_agent, dispute_open,
}
use agentic_bank.Store.Args.{Fields}
use agentic_bank.Store.Types.{
  Actor, Action, AgentName, Decision, RuleId, agent_name, decision_eq, rule_id_eq,
}
use agentic_bank.Ledger.{get_account, account_view}
use agentic_bank.Agents.{Host, session_by_id, tool_audit, tool_result, logged}
use agentic_bank.Agents.Args.{text_field}

abbrev not_of_customer : Option String → Session → Bool
not_of_customer none session = false
not_of_customer (some c) session = not (c === "") && not (c === session.customer_id)

unfoldable pub balance_refused :
    Host → Db → Session → Actor → Fields → Option String → Option (ToolResult × Db)
balance_refused host db session actor args audit_id =
    logged host db session
      (tool_audit audit_id actor Action.balance args Decision.deny_policy RuleId.unknown_account
        "account not in session customer" session)
      (λ _ id.
        tool_result false "계좌를 확인할 수 없습니다" Decision.deny_policy RuleId.unknown_account
          "account not in session customer" id)
      Action.balance args

unfoldable pub balance_shown :
    Host → Db → Session → Actor → Fields → Option String → AccountView → Option (ToolResult × Db)
balance_shown host db session actor args audit_id shown =
    logged host db session
      (tool_audit audit_id actor Action.balance args Decision.allow RuleId.balance "balance inquiry"
        session)
      (λ _ id.
        record (tool_result true "잔액 조회 완료" Decision.allow RuleId.balance "balance inquiry" id) {
          result_data = view shown;
        })
      Action.balance args

unfoldable pub balance_known :
    Host → Db → Session → Actor → Fields → Option String → Option (ToolResult × Db)
balance_known host db session actor args audit_id =
    account_view db (text_field "account_id" "" args)
    >>= balance_shown host db session actor args audit_id

unfoldable pub tool_balance :
    Host → Db → Session → Actor → Fields → Option String → Option (ToolResult × Db)
tool_balance host db session actor args audit_id =
    elim (get_account db (text_field "account_id" "" args)) [
      | none ↦ balance_refused host db session actor args audit_id
      | some acc ↦
          if not_of_customer acc.customer_id session
          then balance_refused host db session actor args audit_id
          else balance_known host db session actor args audit_id
    ]

-- The name of an agent.
unfoldable pub agent_named : String → Option AgentName
agent_named to =
    if to === "transfer"
    then some AgentName.transfer
    else if to === "dispute"
    then some AgentName.dispute
    else if to === "teller"
    then some AgentName.teller
    else none

unfoldable pub handoff_to :
    Host → Db → Session → Actor → Fields → Option String → AgentName → Option (ToolResult × Db)
handoff_to host db session actor args audit_id to =
    logged host moved now
      (tool_audit audit_id actor Action.handoff args Decision.allow RuleId.handoff reason now)
      (λ _ id.
        record (tool_result true (agent_name to <> " 에이전트로 연결되었습니다") Decision.allow RuleId.handoff
          reason id) { result_data = current_agent to })
      Action.handoff args
  where
    reason : String
    reason = "handoff to " <> agent_name to

    now : Session
    now = record session { current_agent = to }

    moved : Db
    moved = record db {
      sessions =
          update (session_by_id session.id) (λ s. record s { current_agent = to }) db.sessions;
    }

unfoldable pub handoff_refused :
    Host → Db → Session → Actor → Fields → Option String → String → Option (ToolResult × Db)
handoff_refused host db session actor args audit_id to =
    logged host db session
      (tool_audit audit_id actor Action.handoff args Decision.deny_policy RuleId.agent_tool_denied
        ("unknown agent " <> to) session)
      (λ _ id.
        tool_result false "대상 에이전트를 확인할 수 없습니다" Decision.deny_policy RuleId.agent_tool_denied
          ("unknown agent " <> to) id)
      Action.handoff args

unfoldable pub tool_handoff :
    Host → Db → Session → Actor → Fields → Option String → Option (ToolResult × Db)
tool_handoff host db session actor args audit_id = elim (agent_named (text_field "to" "" args)) [
  | some agent ↦ handoff_to host db session actor args audit_id agent
  | none ↦ handoff_refused host db session actor args audit_id (text_field "to" "" args)
]

abbrev of_customer : Option Account → Session → Bool
of_customer none session = false
of_customer (some acc) session = acc.customer_id === some session.customer_id

unfoldable pub insert_dispute : Dispute → Db → Option Db
insert_dispute d db = do
  throw_if (is_some (find (λ e. e.id === d.id) db.disputes))
  throw_if (not (is_some (get_account db d.account_id)))
  some (record db { disputes = db.disputes ++ d ∷ [] })

abbrev pub new_dispute : Host → Session → Fields → Dispute
new_dispute host session args = record {
  id = host.dispute_uuid;
  account_id = text_field "account_id" "" args;
  customer_id = session.customer_id;
  reason = text_field "reason" "unspecified" args;
  created_at = host.dispute_at;
}

unfoldable pub dispute_opened :
    Host → Session → Actor → Fields → Option String → Db → Option (ToolResult × Db)
dispute_opened host session actor args audit_id with_dispute =
    logged host with_dispute session
      (tool_audit audit_id actor Action.open_dispute args Decision.allow RuleId.dispute_intake
        "dispute intake only; no money movement" session)
      (λ _ id.
        record (tool_result true "분쟁 접수 완료 (자금 이동 없음)" Decision.allow RuleId.dispute_intake
          "dispute intake only; no money movement" id) {
            result_data = dispute_open host.dispute_uuid;
          })
      Action.open_dispute args

unfoldable pub dispute_refused :
    Host → Db → Session → Actor → Fields → Option String → Option (ToolResult × Db)
dispute_refused host db session actor args audit_id =
    logged host db session
      (tool_audit audit_id actor Action.open_dispute args Decision.deny_policy
        RuleId.unknown_account "account not in session customer" session)
      (λ _ id.
        tool_result false "계좌를 확인할 수 없습니다" Decision.deny_policy RuleId.unknown_account
          "account not in session customer" id)
      Action.open_dispute args

unfoldable pub tool_open_dispute :
    Host → Db → Session → Actor → Fields → Option String → Option (ToolResult × Db)
tool_open_dispute host db session actor args audit_id =
    if of_customer (get_account db (text_field "account_id" "" args)) session
    then insert_dispute (new_dispute host session args) db
      >>= dispute_opened host session actor args audit_id
    else dispute_refused host db session actor args audit_id
