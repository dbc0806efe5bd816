-- ===== src/Agents/Transfer/Write.antt =====
-- packages/core/src/agents.ts, `toolTransfer` from the decision on.
use agentic_bank.Common.{
  false, ◌||◌, Option, none, some, String, ℤ, if◌then◌else◌, ◌===◌, string_eq, ◌>>=◌, int, non_int,
}
use agentic_bank.Store.{Journal, AuditRow, Session, ToolResult, ToolData, Db, no_data, status, held}
use agentic_bank.Store.Types.{
  Actor, Action, JournalStatus, BlastRadius, Decision, RuleId, decision_eq, journal_status_eq,
}
use agentic_bank.Audit.{get_audit, find_audit_by_idempotency}
use agentic_bank.Ledger.{get_journal_by_idempotency, pending_out, available_balance}
use agentic_bank.Ledger.Write.{
  TransferJournalInput, JournalWriteErr, WriteCode, ok, err, known, idempotency_conflict,
  write_transfer_journal,
}
use agentic_bank.Store.Args.{Fields}
use agentic_bank.Agents.{Host, append_trace, link_decide_audit, tool_audit, tool_result, logged}
use agentic_bank.Agents.Decide.{earlier_denial}
use agentic_bank.Agents.Transfer.{
  TransferAsk, transfer_ask, same_body, transfer_conflict, transfer_replay, transfer_denied_before,
  Inbound, inbound_decision,
}

unfoldable pub transfer_undecided :
    Host → Db → Session → Actor → TransferAsk → Option String → Option (ToolResult × Db)
transfer_undecided host db session actor ask audit_id =
    logged host db session
      (tool_audit audit_id actor Action.transfer ask.args Decision.deny_policy RuleId.policy_decide
        "transfer requires inbound decision + audit_id from policy.decide" session)
      (λ _ id.
        tool_result false "정책 결정이 필요합니다" Decision.deny_policy RuleId.policy_decide
          "missing inbound decision or audit_id" id)
      Action.transfer ask.args

-- A denial by the policy has its audit row already, and gets no journal.
unfoldable pub transfer_denied :
    Host → Db → Session → TransferAsk → Inbound → Option (ToolResult × Db)
transfer_denied host db session ask inbound = do
  let answer : ToolResult =
      record (tool_result false inbound.copy Decision.deny_policy inbound.rule_id inbound.reason
        inbound.decide_audit_id) {
          blast_radius = some (radius (get_audit db inbound.decide_audit_id));
          decision_ref = some inbound.decide_audit_id;
        }
  with_trace ← append_trace db session Action.transfer ask.args answer host.trace_uuid host.trace_at
  some (answer, with_trace)
  where
    radius : Option AuditRow → BlastRadius
    radius none = BlastRadius.medium
    radius (some row) = row.blast_radius

unfoldable pub transfer_refused :
    Host
    → Db
    → Session
    → Actor
    → TransferAsk
    → Option String
    → Inbound
    → JournalWriteErr
    → Option (ToolResult × Db)
transfer_refused host db session actor ask audit_id inbound e =
    logged host db session
      (tool_audit audit_id actor Action.transfer ask.args Decision.deny_policy (rule e.code)
        e.reason session)
      (λ _ id.
        record (tool_result false (copy e.code) Decision.deny_policy (rule e.code) e.reason id) {
          decision_ref = some inbound.decide_audit_id;
          result_data = status e.status;
        })
      Action.transfer ask.args
  where
    rule : WriteCode → RuleId
    rule idempotency_conflict = RuleId.idempotency_conflict
    rule _ = inbound.rule_id

    -- The one code with the status 409.
    copy : WriteCode → String
    copy idempotency_conflict = "멱등 키 충돌"
    copy _ = inbound.copy

unfoldable pub transfer_written :
    Host
    → Db
    → Session
    → Actor
    → TransferAsk
    → Option String
    → Inbound
    → Journal
    → Option (ToolResult × Db)
transfer_written host db session actor ask audit_id inbound journal =
    logged host linked session
      (record (tool_audit audit_id actor Action.transfer ask.args inbound.decision inbound.rule_id
        inbound.reason session) { journal_id = some journal.id })
      (λ audit id.
        record (tool_result
          (inbound.decision === Decision.allow || inbound.decision === Decision.dual_control)
          inbound.copy inbound.decision inbound.rule_id inbound.reason id) {
            blast_radius = some audit.blast_radius;
            decision_ref = journal.decision_ref;
            journal_id = some journal.id;
            journal_status = some journal.status;
            result_data = funds;
          })
      Action.transfer ask.args
  where
    linked : Db
    linked = link_decide_audit db inbound.decide_audit_id journal.id

    funds : ToolData
    funds =
        if journal.status === JournalStatus.pending
        then held (pending_out linked ask.from) (available_balance linked ask.from)
        else no_data

unfoldable pub journal_input : Actor → TransferAsk → Inbound → ℤ → TransferJournalInput
journal_input actor ask inbound amount = record {
  idempotency_key = ask.key;
  decision = known inbound.decision;
  decision_ref = inbound.decide_audit_id;
  from_account_id = ask.from;
  to_account_id = ask.to;
  amount = amount;
  rule_id = inbound.rule_id;
  reason = inbound.reason;
  created_by = some actor;
}

-- The policy lets only positive integers through: the model has no journal row for another number.
unfoldable pub transfer_write :
    Host → Db → Session → Actor → TransferAsk → Option String → Inbound → Option (ToolResult × Db)
transfer_write host db session actor ask audit_id inbound = elim ask.amount [
  | non_int _ ↦ none
  | int amount ↦
      write_transfer_journal db (journal_input actor ask inbound amount) host.journal_uuids
        host.journal_at
      >>= λ written. elim written.0 [
        | err e ↦ transfer_refused host written.1 session actor ask audit_id inbound e
        | ok journal _ ↦ transfer_written host written.1 session actor ask audit_id inbound journal
      ]
]

unfoldable pub transfer_decided :
    Host → Db → Session → Actor → TransferAsk → Option String → Inbound → Option (ToolResult × Db)
transfer_decided host db session actor ask audit_id inbound =
    if inbound.decide_audit_id === ""
    then transfer_undecided host db session actor ask audit_id
    else if inbound.decision === Decision.deny_policy
    then transfer_denied host db session ask inbound
    else transfer_write host db session actor ask audit_id inbound

unfoldable pub transfer_new :
    Host → Db → Session → Actor → TransferAsk → Option String → Option (ToolResult × Db)
transfer_new host db session actor ask audit_id =
    elim (earlier_denial host db Action.transfer ask.key ask.from ask.to ask.amount) [
      | some prior ↦
          transfer_denied_before host db session ask prior
            (find_audit_by_idempotency db Action.policy_decide ask.key (some Decision.deny_policy))
      | none ↦ inbound_decision host db session actor ask >>= λ decided.
          transfer_decided host decided.1 session actor ask audit_id decided.0
    ]

unfoldable pub tool_transfer :
    Host → Db → Session → Actor → Fields → Option String → Option (ToolResult × Db)
tool_transfer host db session actor args audit_id =
    let ask = transfer_ask host session args in
    elim (get_journal_by_idempotency db ask.key) [
      | some existing ↦
          if same_body existing ask
          then transfer_replay host db session actor ask audit_id existing
          else transfer_conflict host db session actor ask audit_id existing
      | none ↦ transfer_new host db session actor ask audit_id
    ]
