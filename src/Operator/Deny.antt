-- ===== src/Operator/Deny.antt =====
-- packages/core/src/agents.ts, `operatorDeny`.
use agentic_bank.Common.{
  true, false, Option, none, some, String, if◌then◌else◌, ◌===◌, string_eq, option_eq, ◌>>=◌,
}
use agentic_bank.Store.{Journal, Db, ToolResult, no_data}
use agentic_bank.Store.Types.{
  JournalStatus, Actor, Action, Decision, RuleId, actor_eq, action_eq, decision_eq, product_eq,
  journal_status_eq,
}
use agentic_bank.Audit.{write_audit}
use agentic_bank.Ledger.{get_journal}
use agentic_bank.Ledger.Clear.{reject_pending_journal}
use agentic_bank.Policy.{copy_denied}
use agentic_bank.Operator.{
  Call, ClearInput, actor_of, audited, clear_audit, clear_result, creator_of, require_audit,
}

unfoldable pub deny_pending : Db → ClearInput → Call → Actor → Journal → Option (ToolResult × Db)
deny_pending db input call actor journal = do
  (audit, with_audit) ←
      write_audit db
        (clear_audit input.audit_id actor Action.operator_deny journal.id Decision.operator_deny
          RuleId.operator_deny "operator denied pending journal")
        call.uuid call.now
  (_, rejected) ← reject_pending_journal with_audit journal.id
  fresh ← get_journal rejected journal.id
  audit_id ← require_audit audit
  some (
    clear_result true copy_denied Decision.operator_deny RuleId.operator_deny
        "operator denied pending journal" fresh.decision_ref journal.id (some JournalStatus.denied)
        no_data audit_id,
    rejected,
  )

-- The two refusals differ in their rule and texts.
abbrev deny_refused :
    Db → ClearInput → Call → Actor → RuleId → String → String → Option (ToolResult × Db)
deny_refused db input call actor rule_id reason copy =
    audited db call
      (clear_audit input.audit_id actor Action.operator_deny input.journal_id Decision.deny_limit
        rule_id reason)
      (clear_result false copy Decision.deny_limit rule_id reason none input.journal_id none
        no_data)

unfoldable pub deny_self : Db → ClearInput → Call → Actor → Option (ToolResult × Db)
deny_self db input call actor =
    deny_refused db input call actor RuleId.self_approve_forbidden
      "requesting agent cannot clear PENDING" "본인 건은 승인할 수 없음"

unfoldable pub deny_not_pending : Db → ClearInput → Call → Actor → Option (ToolResult × Db)
deny_not_pending db input call actor =
    deny_refused db input call actor RuleId.operator_deny "journal is not PENDING" "대기 전표가 아닙니다"

unfoldable pub operator_deny : Db → ClearInput → Call → Option (ToolResult × Db)
operator_deny db input call =
    let actor = actor_of input.actor in
    let journal = get_journal db input.journal_id in
    if actor === creator_of journal then deny_self db input call actor else elim journal [
      | none ↦ deny_not_pending db input call actor
      | some j ↦
          if j.status === JournalStatus.pending
          then deny_pending db input call actor j
          else deny_not_pending db input call actor
    ]
