-- ===== src/Agents/Transfer.antt =====
-- packages/core/src/agents.ts, `toolTransfer`: from a replay to the journal write.
pub mod Write
use agentic_bank.Common.{
  Bool, true, false, not, ◌&&◌, ◌||◌, Option, none, some, String, if◌then◌else◌, ◌===◌, string_eq,
  ◌>>=◌, Number, int, non_int, same_number, show_number,
}
use Prim.Native.Nat.{ℕ}
use Prim.Native.String.{◌++◌ as ◌<>◌}
use agentic_bank.Store.{
  Journal, AuditRow, Session, SessionPolicy, ToolResult, ToolData, Db, no_data, replay, replay_of,
  status, held,
}
use agentic_bank.Store.Args.{Fields, str, set_field}
use agentic_bank.Store.Types.{
  Actor, Action, JournalStatus, BlastRadius, Decision, RuleId, decision_eq, rule_id_eq,
  journal_status_eq, decision_name,
}
use agentic_bank.Audit.{get_audit, get_or}
use agentic_bank.Ledger.{get_journal_by_idempotency, pending_out, available_balance}
use agentic_bank.Ledger.Write.{
  JournalWriteErr, JournalWriteResult, WriteCode, ok, err, known, idempotency_conflict,
  write_transfer_journal,
}
use agentic_bank.Operator.{require_audit}
use agentic_bank.Policy.{decide, copy_posted, copy_pending, copy_denied}
use agentic_bank.Agents.{
  Host, append_trace, link_decide_audit, tool_audit, tool_result, logged, matching_policy,
  copy_for_decision,
}
use agentic_bank.Agents.Args.{text_field, number_field, idempotency_of}
use agentic_bank.Agents.Decide.{earlier_denial, tool_policy_decide}

-- The fields that `toolTransfer` reads from its arguments; a key that is absent is minted.
pub record TransferAsk : Type 0 where
  pub from : String
  pub to : String
  pub amount : Number
  pub key : String
  pub args : Fields

minted : Session → String → String → Number → String
minted session from to amount =
    "mint:" <> session.id <> ":" <> from <> ":" <> to <> ":" <> show_number amount

unfoldable pub transfer_ask : Host → Session → Fields → TransferAsk
unfolding minted
transfer_ask host session args = record {
  from = from;
  to = to;
  amount = amount;
  key = key;
  args = set_field "idempotency_key" (str key) args;
}
  where
    from : String
    from = text_field "from_account_id" "" args

    to : String
    to = text_field "to_account_id" "" args

    amount : Number
    amount = number_field host.number_of "amount" args

    key : String
    key = if idempotency_of args === "" then minted session from to amount else idempotency_of args

unfoldable pub replay_copy : JournalStatus → String
replay_copy JournalStatus.posted = copy_posted
replay_copy JournalStatus.pending = copy_pending
replay_copy JournalStatus.denied = copy_denied

by_status : Journal → Decision
by_status journal =
    if journal.status === JournalStatus.posted
    then Decision.allow
    else if journal.status === JournalStatus.pending
    then Decision.dual_control
    else by_rule journal.rule_id
  where
    by_rule : Option RuleId → Decision
    by_rule (some RuleId.nsf) = Decision.deny_nsf
    by_rule (some RuleId.daily_cap) = Decision.deny_limit
    by_rule _ = Decision.deny_policy

unfoldable pub replay_decision : Journal → Decision
unfolding by_status
replay_decision journal = elim journal.decision [
  | none ↦ by_status journal
  | some stored ↦
      if stored === Decision.allow
        || stored === Decision.deny_nsf
        || stored === Decision.deny_limit
        || stored === Decision.dual_control
      then stored
      else by_status journal
]

unfoldable pub same_body : Journal → TransferAsk → Bool
same_body journal ask =
    journal.from_account_id === ask.from
    && journal.to_account_id === ask.to
    && same_number (int journal.amount) ask.amount

unfoldable pub transfer_conflict :
    Host → Db → Session → Actor → TransferAsk → Option String → Journal → Option (ToolResult × Db)
transfer_conflict host db session actor ask audit_id existing =
    logged host db session
      (tool_audit audit_id actor Action.transfer ask.args Decision.deny_policy
        RuleId.idempotency_conflict "idempotency key reused with a different body" session)
      (λ _ id.
        record (tool_result false "멱등 키 충돌" Decision.deny_policy RuleId.idempotency_conflict
          "idempotency key reused with a different body" id) {
            decision_ref = existing.decision_ref;
            journal_id = some existing.id;
            result_data = status 409;
          })
      Action.transfer ask.args

unfoldable pub transfer_replay :
    Host → Db → Session → Actor → TransferAsk → Option String → Journal → Option (ToolResult × Db)
transfer_replay host db session actor ask audit_id existing =
    logged host db session
      (record (tool_audit audit_id actor Action.transfer ask.args (replay_decision existing) rule
        "idempotent replay" session) { journal_id = some existing.id })
      (λ _ id.
        record (tool_result (not (existing.status === JournalStatus.denied))
          (replay_copy existing.status) (replay_decision existing) rule "idempotent replay" id) {
            decision_ref = existing.decision_ref;
            journal_id = some existing.id;
            journal_status = some existing.status;
            result_data = replay_of existing;
          })
      Action.transfer ask.args
  where
    rule : RuleId
    rule = get_or existing.rule_id RuleId.idempotent_replay

-- An earlier denial of the same transfer comes back as it was, with the decision's audit id.
unfoldable pub transfer_denied_before :
    Host → Db → Session → TransferAsk → AuditRow → Option AuditRow → Option (ToolResult × Db)
transfer_denied_before host db session ask prior_deny prior_decide = do
  audit_id ← require_audit prior_deny
  let answer : ToolResult =
      record (tool_result false (copy_for_decision Decision.deny_policy) Decision.deny_policy
        prior_deny.rule_id prior_deny.reason audit_id) {
          blast_radius = some prior_deny.blast_radius;
          decision_ref = some (decide_id prior_decide);
          result_data = replay;
        }
  with_trace ← append_trace db session Action.transfer ask.args answer host.trace_uuid host.trace_at
  some (answer, with_trace)
  where
    decide_id : Option AuditRow → String
    decide_id none = prior_deny.audit_id
    decide_id (some row) =
        if row.decision === Decision.deny_policy then row.audit_id else prior_deny.audit_id

-- The decision that the transfer carries.
pub record Inbound : Type 0 where
  pub decision : Decision
  pub rule_id : RuleId
  pub reason : String
  pub copy : String
  pub decide_audit_id : String

reason_of : Option AuditRow → Decision → String
reason_of none d = decision_name d
reason_of (some row) d = row.reason

inbound_copy : Decision → String → String
inbound_copy Decision.allow copy = copy_for_decision Decision.allow
inbound_copy Decision.dual_control copy = copy_for_decision Decision.dual_control
inbound_copy Decision.deny_nsf copy = copy_for_decision Decision.deny_nsf
inbound_copy Decision.deny_limit copy = copy_for_decision Decision.deny_limit
inbound_copy _ copy = copy

unfoldable pub remembered_inbound : Db → SessionPolicy → Inbound
unfolding reason_of
remembered_inbound db remembered = record {
  decision = remembered.decision;
  rule_id = remembered.rule_id;
  reason = reason_of (get_audit db remembered.decide_audit_id) remembered.decision;
  copy = copy_for_decision remembered.decision;
  decide_audit_id = remembered.decide_audit_id;
}

unfoldable pub asked_inbound : ToolResult → Inbound
unfolding inbound_copy
asked_inbound decided = record {
  decision = decided.decision;
  rule_id = decided.rule_id;
  reason = decided.reason;
  copy = inbound_copy decided.decision decided.copy;
  decide_audit_id = decided.audit_id;
}

unfoldable pub ask_policy : Host → Db → Session → Actor → TransferAsk → Option (Inbound × Db)
ask_policy host db session actor ask =
    tool_policy_decide host db session actor ask.args none >>= λ decided.
    some (asked_inbound decided.0, decided.1)

-- The decision that the session remembers for this transfer is used again unless an account has
-- been frozen or closed since; otherwise the policy is asked now.
unfoldable pub inbound_decision : Host → Db → Session → Actor → TransferAsk → Option (Inbound × Db)
inbound_decision host db session actor ask =
    elim (matching_policy db session.id ask.from ask.to ask.amount) [
      | none ↦ ask_policy host db session actor ask
      | some remembered ↦
          if live_rule === RuleId.account_frozen
          then ask_policy host db session actor ask
          else some (remembered_inbound db remembered, db)
    ]
  where
    live_rule : RuleId
    live_rule =
        (decide db (record {
          from_account_id = ask.from;
          to_account_id = ask.to;
          amount = ask.amount;
          actor_customer_id = some session.customer_id;
          now = host.live_at;
        })).rule_id
