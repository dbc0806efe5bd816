-- ===== src/Operator/Accounts.antt =====
-- packages/core/src/agents.ts, `operatorSetAccountStatus`: freezing, closing and opening accounts.
pub mod Written
use agentic_bank.Common.{
  ◌≡◌, ◌≢◌, ◌⊎◌, inl, inr, sym, ◌∙◌, Bool, true, false, Option, none, some, String, if◌then◌else◌,
  ◌===◌, string_eq, >>=-some, Option-cases, arith, ◌>>=◌, find-update, find_holds, refl,
}
use Prim.Native.String.{◌++◌ as ◌<>◌}
use agentic_bank.Store.{Account, AuditRow, Db, ToolResult, ToolData, no_data, account}
use agentic_bank.Store.Args.{str, obj, end, field}
use agentic_bank.Store.Types.{
  Product, AccountStatus, Actor, Action, BlastRadius, Decision, RuleId, product_eq,
  account_status_name,
}
use agentic_bank.Audit.{WriteAuditInput, write_audit}
use agentic_bank.Ledger.{by_id, get_account, account_view, set_account_status}
use agentic_bank.Audit.Log.{write_audit-grows}
use agentic_bank.Operator.{StatusInput, Call, actor_of, require_audit}
use agentic_bank.Transfers.{LedgerReach, changes_status, here, next}

abbrev pub copy_account : AccountStatus → String
copy_account AccountStatus.frozen = "동결"
copy_account AccountStatus.closed = "해지"
copy_account AccountStatus.opened = "정상"

-- The audit row of a status write, with the fields that the two branches differ in.
abbrev pub status_audit : StatusInput → Decision → RuleId → String → BlastRadius → WriteAuditInput
status_audit input decision rule_id reason blast_radius = record {
  audit_id = input.audit_id;
  actor = actor_of input.actor;
  action = Action.account_status;
  args = obj (
      field "account_id" (str input.account_id)
        (field "status" (str (account_status_name input.status)) end));
  decision = decision;
  rule_id = rule_id;
  reason = reason;
  why = none;
  blast_radius = some blast_radius;
  session_id = none;
  journal_id = none;
  agent = none;
  timestamp = none;
}

abbrev pub status_result :
    Bool → String → Decision → RuleId → String → String → BlastRadius → ToolData → ToolResult
status_result ok copy decision rule_id reason audit_id blast_radius result_data = record {
  ok = ok;
  copy = copy;
  decision = decision;
  rule_id = rule_id;
  reason = reason;
  audit_id = audit_id;
  blast_radius = some blast_radius;
  decision_ref = none;
  journal_id = none;
  journal_status = none;
  result_data = result_data;
}

abbrev hidden_reason : String
hidden_reason = "unknown or hidden house account"

abbrev pub refused_audit : StatusInput → WriteAuditInput
refused_audit input =
    status_audit input Decision.deny_policy RuleId.unknown_account hidden_reason BlastRadius.medium

abbrev write_reason : StatusInput → Account → String
write_reason input acc =
    "status write "
    <> account_status_name acc.status
    <> " → "
    <> account_status_name input.status
    <> "; not a reversing journal"

abbrev pub changed_audit : StatusInput → Account → WriteAuditInput
changed_audit input acc =
    status_audit input Decision.allow RuleId.account_status (write_reason input acc) BlastRadius.low

unfoldable pub refuse_status : Db → StatusInput → Call → Option (ToolResult × Db)
refuse_status db input call = do
  (audit, after) ← write_audit db (refused_audit input) call.uuid call.now
  audit_id ← require_audit audit
  some (
    status_result false "계좌를 확인할 수 없습니다" Decision.deny_policy RuleId.unknown_account hidden_reason
        audit_id audit.blast_radius no_data,
    after,
  )

unfoldable pub write_status : Db → StatusInput → Call → Account → Option (ToolResult × Db)
write_status db input call acc = do
  let changed : Db = (set_account_status db input.account_id input.status).1
  (audit, after) ← write_audit changed (changed_audit input acc) call.uuid call.now
  audit_id ← require_audit audit
  some (
    status_result true (copy_account input.status) Decision.allow RuleId.account_status
        (write_reason input acc) audit_id audit.blast_radius
        (account (account_view after input.account_id)),
    after,
  )

unfoldable pub operator_set_account_status : Db → StatusInput → Call → Option (ToolResult × Db)
operator_set_account_status db input call = elim (get_account db input.account_id) [
  | none ↦ refuse_status db input call
  | some acc ↦
      if acc.product === Product.house
      then refuse_status db input call
      else write_status db input call acc
]
