-- ===== src/Agents/Decide.antt =====
-- packages/core/src/agents.ts, `toolPolicyDecide`.
use agentic_bank.Common.{
  false, ◌&&◌, ◌||◌, Option, none, some, String, if◌then◌else◌, ◌===◌, string_eq, option_eq, ◌>>=◌,
  Number,
}
use agentic_bank.Store.{AuditRow, Session, ToolResult, Db, replay, policy, PolicyResult}
use agentic_bank.Store.Args.{Fields}
use agentic_bank.Store.Types.{Actor, Action, BlastRadius, Decision, RuleId, decision_eq, rule_id_eq}
use agentic_bank.Audit.{WriteAuditInput, write_audit, find_audit_by_idempotency}
use agentic_bank.Operator.{require_audit}
use agentic_bank.Policy.{decide}
use agentic_bank.Agents.{
  Host, append_trace, tool_audit, tool_result, remember_policy, copy_for_decision,
}
use agentic_bank.Agents.Args.{text_field, number_field, same_args_body, idempotency_of}

-- An earlier denial of the same transfer under the same key.
unfoldable pub earlier_denial :
    Host → Db → Action → String → String → String → Number → Option AuditRow
earlier_denial host db action key from to amount =
    elim (find_audit_by_idempotency db action key (some Decision.deny_policy)) [
      | none ↦ none
      | some row ↦
          if row.decision === Decision.deny_policy
            && same_args_body host.number_of row.args from to amount
          then some row
          else none
    ]

abbrev pub decide_replayed : AuditRow → String → ToolResult
decide_replayed existing audit_id =
    record (tool_result false (copy_for_decision existing.decision) existing.decision
      existing.rule_id existing.reason audit_id) {
        blast_radius = some existing.blast_radius;
        decision_ref = some existing.audit_id;
        result_data = replay;
      }

unfoldable pub decide_replay : Host → Db → Session → Fields → AuditRow → Option (ToolResult × Db)
decide_replay host db session args existing = do
  remembered ←
      remember_policy db session.id (text_field "from_account_id" "" args)
        (text_field "to_account_id" "" args) (number_field host.number_of "amount" args)
        existing.decision existing.rule_id existing.audit_id host.decide_draws.remembered_at
  audit_id ← require_audit existing
  with_trace ←
      append_trace remembered session Action.policy_decide args (decide_replayed existing audit_id)
        host.decide_draws.trace_uuid host.decide_draws.trace_at
  some (decide_replayed existing audit_id, with_trace)

abbrev blast_for : PolicyResult → Option BlastRadius
blast_for p = if p.rule_id === RuleId.account_frozen then some BlastRadius.medium else none

-- The policy's answer to the arguments.
unfoldable pub policy_now : Host → Db → Session → Fields → PolicyResult
policy_now host db session args = decide db (record {
  from_account_id = text_field "from_account_id" "" args;
  to_account_id = text_field "to_account_id" "" args;
  amount = number_field host.number_of "amount" args;
  actor_customer_id = some session.customer_id;
  now = host.decide_draws.policy_at;
})

abbrev pub decide_audit : Session → Actor → Fields → Option String → PolicyResult → WriteAuditInput
decide_audit session actor args audit_id result =
    record (tool_audit audit_id actor Action.policy_decide args result.decision result.rule_id
      result.reason session) { blast_radius = blast_for result }

abbrev pub decide_answer : PolicyResult → AuditRow → String → ToolResult
decide_answer result audit decide_id =
    record (tool_result
      (result.decision === Decision.allow || result.decision === Decision.dual_control) result.copy
      result.decision result.rule_id result.reason decide_id) {
        blast_radius = some audit.blast_radius;
        decision_ref = some decide_id;
        result_data = policy result;
      }

-- The memory and the trace of a decision whose audit row is written.
unfoldable pub decide_recorded :
    Host → Db → Session → Fields → PolicyResult → AuditRow → Option (ToolResult × Db)
decide_recorded host db session args result audit = do
  decide_id ← require_audit audit
  remembered ←
      remember_policy db session.id (text_field "from_account_id" "" args)
        (text_field "to_account_id" "" args) (number_field host.number_of "amount" args)
        result.decision result.rule_id decide_id host.decide_draws.remembered_at
  with_trace ←
      append_trace remembered session Action.policy_decide args
        (decide_answer result audit decide_id) host.decide_draws.trace_uuid
        host.decide_draws.trace_at
  some (decide_answer result audit decide_id, with_trace)

unfoldable pub decide_now :
    Host → Db → Session → Actor → Fields → Option String → Option (ToolResult × Db)
decide_now host db session actor args audit_id = do
  let result : PolicyResult = policy_now host db session args
  (audit, with_audit) ←
      write_audit db (decide_audit session actor args audit_id result) host.decide_draws.audit_uuid
        host.decide_draws.audit_at
  decide_recorded host with_audit session args result audit

unfoldable pub tool_policy_decide :
    Host → Db → Session → Actor → Fields → Option String → Option (ToolResult × Db)
tool_policy_decide host db session actor args audit_id =
    let key = idempotency_of args in
    let existing =
      earlier_denial host db Action.policy_decide key (text_field "from_account_id" "" args)
        (text_field "to_account_id" "" args) (number_field host.number_of "amount" args) in
    if key === "" then decide_now host db session actor args audit_id else elim existing [
      | some row ↦ decide_replay host db session args row
      | none ↦ decide_now host db session actor args audit_id
    ]
