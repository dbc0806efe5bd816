-- ===== src/Tests/Records.antt =====
-- The theorems on the audit table, the Seoul day and the operator's calls at the sample bank.
use agentic_bank.Common.{
  ◌≡◌, ◌≢◌, ◌⊎◌, ◌↔◌, refl, none, some, true, false, String, String_discrete, ◌≤◌, ◌<◌, find, ◌%◌,
  ◌+◌, arith, string_eq, [], ◌∷◌, ◌++◌, update, Option_discrete,
}
use agentic_bank.Store.{AuditRow, Db, ToolResult, no_data, account}
use agentic_bank.Store.Args.{Json, str, obj, end, field}
use agentic_bank.Store.Types.{
  Product, JournalStatus, AccountStatus, BlastRadius, Actor, Action, Decision, RuleId, pending,
  Actor_discrete, JournalStatus_discrete, Product_discrete, account_status_name,
}
use agentic_bank.Time.{seoul_day_utc_range, seoul_day_utc_range-from_15}
use agentic_bank.Audit.{WriteAuditInput, write_audit, get_audit, audit_row}
use agentic_bank.Audit.Log.{Appended, write_audit-Appended}
use agentic_bank.Audit.Redact.{redact_args, is_secret_key, looks_like_pii_value}
use agentic_bank.Ledger.{get_journal, get_account, set_account_status, account_view}
use agentic_bank.Ledger.Clear.{post_journal, deny_journal, reject_pending_journal}
use agentic_bank.Transfers.{LedgerReach}
use agentic_bank.Operator.{
  ClearInput, StatusInput, Call, creator_of, operator_approve, clear_audit, clear_result,
  approve_self, require_audit,
}
use agentic_bank.Operator.Deny.{operator_deny, deny_pending}
use agentic_bank.Operator.Progress.{approved, operator_approve-posts}
use agentic_bank.Operator.FourEyes.{IsClearable, operator_approve-four_eyes}
use agentic_bank.Operator.Denial.{operator_deny-four_eyes}
use agentic_bank.Operator.Accounts.{
  operator_set_account_status, write_status, status_audit, status_result,
}
use agentic_bank.Operator.Accounts.Written.{operator_set_account_status-Written}
use agentic_bank.Tests.{bank, alice, waiting_journal, texts_differ}

seoul_day_utc_range-from_15_example :
    let (start_utc, end_utc) = seoul_day_utc_range 1_700_000_000_000 in
    (start_utc ≤ 1_700_000_000_000)
    × (1_700_000_000_000 < end_utc)
    × (start_utc % 86_400_000 ≡ 54_000_000)
    × (end_utc ≡ start_utc + 86_400_000)
    × (((start_utc ≤ 1_700_000_000_007) × (1_700_000_000_007 < end_utc))
        ↔ (seoul_day_utc_range 1_700_000_000_007 ≡ seoul_day_utc_range 1_700_000_000_000))
seoul_day_utc_range-from_15_example =
    seoul_day_utc_range-from_15 1_700_000_000_000 1_700_000_000_007 (omega arith) (omega arith)

abbrev contact : Json
contact = obj (field "email" (str "a@b.kr") (field "note" (str "010-1234-5678") end))

redact_test :
    redact_args contact
    ≡ obj (field "email" (str "[redacted]") (field "note" (str "[redacted]") end))
unfolding redact_args is_secret_key looks_like_pii_value
redact_test = refl

a2_filled : ◌≢◌ {A = String} "a2" ""
unfolding String_discrete
a2_filled = texts_differ "a2" "" refl

waiting_known : get_journal bank "j1" ≡ some waiting_journal
unfolding get_journal find String_discrete
waiting_known = refl

other_party : Actor.operator ≢ creator_of (some waiting_journal)
other_party e = cc

abbrev inquiry : WriteAuditInput
inquiry = record {
  audit_id = none;
  actor = Actor.agent;
  action = Action.balance;
  args = contact;
  decision = Decision.allow;
  rule_id = RuleId.balance;
  reason = "balance inquiry";
  why = none;
  blast_radius = none;
  session_id = some "s1";
  journal_id = none;
  agent = none;
  timestamp = none;
}

write_audit-Appended_example :
    (row : AuditRow) × (after : Db) × (write_audit bank inquiry "a2" 1_000_000_003
      ≡ some (row, after))
    × Appended bank "a2" row after
write_audit-Appended_example = write_audit-Appended bank inquiry "a2" 1_000_000_003 a2_filled

abbrev clear : ClearInput
clear = record { journal_id = "j1"; audit_id = none; actor = none }

abbrev call : Call
call = record { uuid = "a2"; now = 1_000_000_003; applied_at = 1_000_000_004 }

abbrev freeze : StatusInput
freeze = record {
  account_id = "alice-chk";
  status = AccountStatus.frozen;
  audit_id = none;
  actor = none;
}

operator_approve-posts_example :
    (logged : Db) × (row : AuditRow) × (operator_approve bank clear call
      ≡ some (approved waiting_journal row, post_journal 1_000_000_004 "j1" logged))
    × (get_audit logged "a2" ≡ some row)
    × (logged ≡ record bank { audit = logged.audit })
operator_approve-posts_example =
    operator_approve-posts bank clear call waiting_journal a2_filled waiting_known refl other_party

-- The same call by the creating side is refused.
abbrev self_clear : ClearInput
self_clear = record { journal_id = "j1"; audit_id = none; actor = some Actor.agent }

abbrev approve_row : AuditRow
approve_row =
    audit_row
      (clear_audit none Actor.agent Action.operator_approve "j1" Decision.deny_limit
        RuleId.self_approve_forbidden
        "requesting agent cannot self-approve; only Console operator.approve may clear PENDING")
      "a2" 1_000_000_003

abbrev approve_answer : ToolResult
approve_answer =
    clear_result false "본인 건은 승인할 수 없음" Decision.deny_limit RuleId.self_approve_forbidden
      "requesting agent cannot self-approve" none "j1" (some pending) no_data "a2"

abbrev approve_after : Db
approve_after = record bank { audit = bank.audit ++ approve_row ∷ [] }

approve_refused : operator_approve bank self_clear call ≡ some (approve_answer, approve_after)
unfolding operator_approve approve_self write_audit get_journal find String_discrete Actor_discrete
    require_audit get_audit
approve_refused = refl

operator_approve-four_eyes_example :
    (IsClearable self_clear waiting_journal
      × (get_journal approve_after "j1"
          ≡ some (record waiting_journal {
            status = JournalStatus.posted;
            posted_at = some 1_000_000_004;
          })))
    ⊎ (¬ IsClearable self_clear waiting_journal
        × (get_journal approve_after "j1" ≡ some waiting_journal))
operator_approve-four_eyes_example =
    operator_approve-four_eyes bank self_clear call approve_answer waiting_journal waiting_known
      approve_refused

abbrev deny_row : AuditRow
deny_row =
    audit_row
      (clear_audit none Actor.operator Action.operator_deny "j1" Decision.operator_deny
        RuleId.operator_deny "operator denied pending journal")
      "a2" 1_000_000_003

abbrev deny_answer : ToolResult
deny_answer =
    clear_result true "거절" Decision.operator_deny RuleId.operator_deny
      "operator denied pending journal" none "j1" (some JournalStatus.denied) no_data "a2"

abbrev deny_after : Db
deny_after = deny_journal "j1" (record bank { audit = bank.audit ++ deny_row ∷ [] })

deny_done : operator_deny bank clear call ≡ some (deny_answer, deny_after)
unfolding operator_deny deny_pending write_audit get_journal find String_discrete Actor_discrete
    require_audit get_audit JournalStatus_discrete reject_pending_journal deny_journal update
    Option_discrete
deny_done = refl

operator_deny-four_eyes_example :
    (IsClearable clear waiting_journal
      × (get_journal deny_after "j1"
          ≡ some (record waiting_journal { status = JournalStatus.denied })))
    ⊎ (¬ IsClearable clear waiting_journal × (get_journal deny_after "j1" ≡ some waiting_journal))
operator_deny-four_eyes_example =
    operator_deny-four_eyes bank clear call deny_answer waiting_journal waiting_known deny_done

abbrev freeze_row : AuditRow
freeze_row =
    audit_row
      (status_audit freeze Decision.allow RuleId.account_status
        "status write OPEN → FROZEN; not a reversing journal" BlastRadius.low)
      "a2" 1_000_000_003

abbrev frozen_bank : Db
frozen_bank = (set_account_status bank "alice-chk" AccountStatus.frozen).1

abbrev freeze_after : Db
freeze_after = record frozen_bank { audit = frozen_bank.audit ++ freeze_row ∷ [] }

abbrev freeze_answer : ToolResult
freeze_answer =
    status_result true "동결" Decision.allow RuleId.account_status
      "status write OPEN → FROZEN; not a reversing journal" "a2" BlastRadius.low
      (account (account_view freeze_after "alice-chk"))

freeze_done : operator_set_account_status bank freeze call ≡ some (freeze_answer, freeze_after)
unfolding operator_set_account_status write_status write_audit get_account find String_discrete
    require_audit get_audit Product_discrete set_account_status update account_status_name
freeze_done = refl

alice_known : get_account bank "alice-chk" ≡ some alice
unfolding get_account find String_discrete
alice_known = refl

operator_set_account_status-Written_example :
    LedgerReach bank freeze_after
    × (((alice.product ≡ Product.house) × (get_account freeze_after "alice-chk" ≡ some alice))
        ⊎ ((alice.product ≢ Product.house)
            × (get_account freeze_after "alice-chk"
                ≡ some (record alice { status = AccountStatus.frozen }))))
operator_set_account_status-Written_example =
    operator_set_account_status-Written bank freeze call freeze_answer alice freeze_done alice_known
