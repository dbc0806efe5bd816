-- ===== src/Operator.antt =====
-- packages/core/src/agents.ts: the operator's calls on pending journals and on accounts. Each runs
-- in one transaction: `none` is a thrown error, after which the database is as before.
pub mod Review
pub mod FourEyes
pub mod Progress
pub mod Deny
pub mod Denial
pub mod Accounts
use agentic_bank.Common.{
  ℕ, Bool, true, false, not, ◌&&◌, ◌||◌, Option, none, some, List, [], ◌∷◌, String, if◌then◌else◌,
  ◌===◌, string_eq, option_eq, select, ltb, ◌>>=◌,
}
use Prim.Native.String.{◌++◌ as ◌<>◌}
use agentic_bank.Store.{
  Account, Journal, AuditRow, Db, ToolResult, ToolData, no_data, replay, account,
}
use agentic_bank.Store.Args.{str, obj, end, field}
use agentic_bank.Store.Types.{
  Product, AccountStatus, JournalStatus, Actor, Action, BlastRadius, Decision, RuleId, actor_eq,
  action_eq, decision_eq, product_eq, journal_status_eq, account_status_name, journal_status_name,
}
use agentic_bank.Audit.{WriteAuditInput, write_audit, get_or}
use agentic_bank.Ledger.{get_account, get_journal, account_view, set_account_status}
use agentic_bank.Ledger.Clear.{apply_pending_journal, reject_pending_journal}
use agentic_bank.Policy.{copy_posted, copy_denied}

-- The input of `operatorApprove` and `operatorDeny`.
pub record ClearInput : Type 0 where
  pub journal_id : String
  pub audit_id : Option String
  pub actor : Option Actor

pub record StatusInput : Type 0 where
  pub account_id : String
  pub status : AccountStatus
  pub audit_id : Option String
  pub actor : Option Actor

-- The random id that one call draws, and its two readings of the clock.
pub record Call : Type 0 where
  pub uuid : String
  pub now : ℕ
  pub applied_at : ℕ

-- `journal?.created_by ?? "agent"`
abbrev pub creator_of : Option Journal → Actor
creator_of none = Actor.agent
creator_of (some j) = get_or j.created_by Actor.agent

abbrev pub actor_of : Option Actor → Actor
actor_of actor = get_or actor Actor.operator

-- The audit row of a decision on a journal.
abbrev pub clear_audit :
    Option String → Actor → Action → String → Decision → RuleId → String → WriteAuditInput
clear_audit audit_id actor action journal_id decision rule_id reason = record {
  audit_id = audit_id;
  actor = actor;
  action = action;
  args = obj (field "journal_id" (str journal_id) end);
  decision = decision;
  rule_id = rule_id;
  reason = reason;
  why = none;
  blast_radius = none;
  session_id = none;
  journal_id = some journal_id;
  agent = none;
  timestamp = none;
}

-- `requireAudit` throws on an empty id.
unfoldable pub require_audit : AuditRow → Option String
require_audit audit = if audit.audit_id === "" then none else some audit.audit_id

-- A result on a journal, with the fields that the calls differ in.
abbrev pub clear_result :
    Bool
    → String
    → Decision
    → RuleId
    → String
    → Option String
    → String
    → Option JournalStatus
    → ToolData
    → String
    → ToolResult
clear_result ok copy decision rule_id reason decision_ref journal_id status result_data audit_id =
    record {
      ok = ok;
      copy = copy;
      decision = decision;
      rule_id = rule_id;
      reason = reason;
      audit_id = audit_id;
      blast_radius = none;
      decision_ref = decision_ref;
      journal_id = some journal_id;
      journal_status = status;
      result_data = result_data;
    }

-- Writes the audit row and returns the result that carries its id.
abbrev pub audited : Db → Call → WriteAuditInput → (String → ToolResult) → Option (ToolResult × Db)
audited db call row result = do
  (audit, after) ← write_audit db row call.uuid call.now
  audit_id ← require_audit audit
  some (result audit_id, after)

abbrev status_of : Option Journal → Option JournalStatus
status_of none = none
status_of (some j) = some j.status

abbrev ref_of : Option Journal → Option String
ref_of none = none
ref_of (some j) = j.decision_ref

-- The audit row of the first approval: ORDER BY timestamp ASC LIMIT 1.
first_by_time : List AuditRow → Option AuditRow
first_by_time [] = none
first_by_time (a ∷ rest) = elim (first_by_time rest) [
  | none ↦ some a
  | some b ↦ some (if ltb b.timestamp a.timestamp then b else a)
]

unfoldable pub existing_approve : Db → String → Option String
unfolding first_by_time
existing_approve db journal_id = elim (first_by_time (select approves db.audit)) [
  | none ↦ none
  | some a ↦ some a.audit_id
]
  where
    approves : AuditRow → Bool
    approves a =
        a.journal_id === some journal_id
        && a.action === Action.operator_approve
        && a.decision === Decision.operator_approve

abbrev given_or : Option String → Option String → Option String
given_or none b = b
given_or (some a) b = some a

unfoldable pub approve_pending : Db → ClearInput → Call → Actor → Journal → Option (ToolResult × Db)
approve_pending db input call actor journal = do
  (audit, with_audit) ←
      write_audit db
        (clear_audit input.audit_id actor Action.operator_approve journal.id
          Decision.operator_approve RuleId.operator_approve "operator approved pending journal")
        call.uuid call.now
  (_, applied) ← apply_pending_journal with_audit journal.id call.applied_at
  fresh ← get_journal applied journal.id
  audit_id ← require_audit audit
  some (
    clear_result true copy_posted Decision.operator_approve RuleId.operator_approve
        "operator approved pending journal" fresh.decision_ref journal.id
        (some JournalStatus.posted) no_data audit_id,
    applied,
  )

unfoldable pub approve_replay : Db → ClearInput → Call → Actor → Journal → Option (ToolResult × Db)
approve_replay db input call actor journal =
    audited db call
      (clear_audit (given_or input.audit_id (existing_approve db journal.id)) actor
        Action.operator_approve journal.id Decision.operator_approve RuleId.operator_approve
        "idempotent replay of approve")
      (clear_result true copy_posted Decision.operator_approve RuleId.operator_approve
        "idempotent replay of approve" journal.decision_ref journal.id (some JournalStatus.posted)
        replay)

unfoldable pub approve_settled : Db → ClearInput → Call → Actor → Journal → Option (ToolResult × Db)
approve_settled db input call actor journal =
    audited db call
      (clear_audit input.audit_id actor Action.operator_approve journal.id Decision.deny_limit
        RuleId.operator_approve
        ("journal is " <> journal_status_name journal.status <> ", not PENDING"))
      (clear_result false "대기 전표가 아닙니다" Decision.deny_limit RuleId.operator_approve
        ("journal is " <> journal_status_name journal.status) none journal.id (some journal.status)
        no_data)

unfoldable pub approve_self :
    Db → ClearInput → Call → Actor → Option Journal → Option (ToolResult × Db)
approve_self db input call actor journal =
    audited db call
      (clear_audit input.audit_id actor Action.operator_approve input.journal_id Decision.deny_limit
        RuleId.self_approve_forbidden
        "requesting agent cannot self-approve; only Console operator.approve may clear PENDING")
      (clear_result false "본인 건은 승인할 수 없음" Decision.deny_limit RuleId.self_approve_forbidden
        "requesting agent cannot self-approve" (ref_of journal) input.journal_id (status_of journal)
        no_data)

unfoldable pub approve_unknown : Db → ClearInput → Call → Actor → Option (ToolResult × Db)
approve_unknown db input call actor =
    audited db call
      (clear_audit input.audit_id actor Action.operator_approve input.journal_id Decision.deny_limit
        RuleId.unknown_account "unknown journal")
      (clear_result false "전표를 확인할 수 없습니다" Decision.deny_limit RuleId.unknown_account
        "unknown journal" none input.journal_id none no_data)

unfoldable pub approve_known : Db → ClearInput → Call → Actor → Journal → Option (ToolResult × Db)
approve_known db input call actor journal = elim journal.status [
  | JournalStatus.posted ↦ approve_replay db input call actor journal
  | JournalStatus.denied ↦ approve_settled db input call actor journal
  | JournalStatus.pending ↦ approve_pending db input call actor journal
]

unfoldable pub operator_approve : Db → ClearInput → Call → Option (ToolResult × Db)
operator_approve db input call =
    let actor = actor_of input.actor in
    let journal = get_journal db input.journal_id in
    if actor === creator_of journal
    then approve_self db input call actor journal
    else elim journal [
      | none ↦ approve_unknown db input call actor
      | some j ↦ approve_known db input call actor j
    ]
