-- ===== src/Tests/Tools.antt =====
-- The agent's tools at the sample bank, with a session of each kind.
use agentic_bank.Common.{
  Option, includes, ◌≡◌, ◌≢◌, inl, refl, none, some, true, false, not, ◌&&◌, ◌===◌, String,
  String_discrete, [], ◌∷◌, ◌++◌, int, non_int, pos, find, string_eq, Option_discrete, ℤ_discrete,
  same_number, is_positive_int_won, sum_by, select, trim, ◌+ℤ◌, ◌-ℤ◌,
}
use native.Mathlib.Decide.{ℕ_discrete}
use agentic_bank.Store.{Session, SessionPolicy, Trace, AuditRow, ToolResult, Db, replay_of}
use agentic_bank.Store.Args.{Fields, str, num, obj, end, field, get_field, set_field}
use agentic_bank.Store.Types.{
  Actor, Action, AgentName, BlastRadius, Decision, RuleId, JournalStatus, Action_discrete,
  agent_name, action_name, journal_status_eq, JournalStatus_discrete, Side_discrete,
  Product_discrete, AccountStatus_discrete, Decision_discrete,
}
use agentic_bank.Audit.{find_audit_by_idempotency, write_audit, audit_row, get_audit}
use agentic_bank.Audit.Redact.{redact_args}
use agentic_bank.Ledger.{
  customer_outbound, journal_entries, entry_sides, get_account, get_journal, available_balance,
  pending_out, get_journal_by_idempotency,
}
use agentic_bank.Operator.{require_audit}
use agentic_bank.Policy.{
  customer_outbound_on_seoul_day, PolicyInput, decide, decide_known, decide_funds,
}
use agentic_bank.Agents.{
  remember_policy, link_decide_audit, Host, DecideDraws, get_session, is_allowed, deny_tool, logged,
  append_trace, tool_audit, tool_result, matching_policy,
}
use agentic_bank.Agents.Args.{number_field, text_field, idempotency_of, text_of}
use agentic_bank.Agents.Execution.{ToolInput, execute_tool}
use agentic_bank.Agents.Decide.{
  earlier_denial, policy_now, decide_now, decide_recorded, tool_policy_decide,
}
use agentic_bank.Agents.Transfer.{
  asked_inbound, TransferAsk, inbound_decision, ask_policy, transfer_ask, transfer_replay,
  same_body, replay_copy, replay_decision,
}
use agentic_bank.Agents.Transfer.Write.{
  transfer_write, journal_input, transfer_written, tool_transfer, transfer_new, transfer_decided,
}
use agentic_bank.Agents.Untouched.{Untouched}
use agentic_bank.Agents.Untouched.Execution.{execute_tool-Untouched, tool_transfer-replays}
use agentic_bank.Agents.Refinement.Transfer.{tool_transfer-LedgerReach}
use agentic_bank.Ledger.Write.Effect.{IsFresh}
use agentic_bank.Transfers.{LedgerReach}
use agentic_bank.Agents.Memory.{tool_policy_decide-nan}
use agentic_bank.Time.{seoul_day_utc_range}
use agentic_bank.Ledger.Write.{
  write_transfer_journal, refusal, write_new, read_journal, is_unreadable, settle_pair,
  insert_journal, journal_row, insert_entry_pair, insert_entry,
}
use agentic_bank.Common.Table.{update}
use agentic_bank.Tests.{bank, opening, new_ids, texts_differ}

abbrev session_of : String → AgentName → Session
session_of id agent = record {
  id = id;
  customer_id = "alice";
  current_agent = agent;
  created_at = 1_000_000_000;
}

abbrev pub draws : DecideDraws
draws = record {
  audit_uuid = "a3";
  trace_uuid = "t3";
  policy_at = 1_000_000_003;
  audit_at = 1_000_000_003;
  remembered_at = 1_000_000_003;
  trace_at = 1_000_000_003;
}

abbrev pub host : Host
host = record {
  number_of = λ _. non_int "NaN";
  audit_uuid = "a2";
  trace_uuid = "t2";
  dispute_uuid = "d2";
  journal_uuids = new_ids;
  decide_draws = draws;
  live_at = 1_000_000_003;
  journal_at = 1_000_000_003;
  dispute_at = 1_000_000_003;
  audit_at = 1_000_000_003;
  trace_at = 1_000_000_004;
}

-- The decision of the session "s2" on a transfer that is too large by now.
abbrev remembered : SessionPolicy
remembered = record {
  session_id = "s2";
  from_account_id = "alice-chk";
  to_account_id = "alice-sav";
  amount = int (pos 2_900_000);
  decision = Decision.allow;
  rule_id = RuleId.allow;
  decide_audit_id = "a1";
  decided_at = 1_000_000_000;
}

abbrev office : Db
office = record bank {
  sessions = session_of "s1" AgentName.teller ∷ session_of "s2" AgentName.transfer ∷ [];
  session_policy = remembered ∷ [];
}

abbrev call : ToolInput
call = record {
  session_id = "s1";
  action = Action.transfer;
  args = end;
  actor = none;
  audit_id = none;
}

teller_known : get_session office "s1" ≡ some (session_of "s1" AgentName.teller)
unfolding get_session find String_discrete
teller_known = refl

tool_policy_decide-nan_example :
    tool_policy_decide host office (session_of "s2" AgentName.transfer) Actor.agent end none ≡ none
unfolding number_field get_field
tool_policy_decide-nan_example =
    tool_policy_decide-nan host office (session_of "s2" AgentName.transfer) Actor.agent end none
      refl

abbrev ask : TransferAsk
ask = record {
  from = "alice-chk";
  to = "alice-sav";
  amount = int (pos 2_900_000);
  key = "k9";
  args = end;
}

row_found :
    matching_policy office "s2" "alice-chk" "alice-sav" (int (pos 2_900_000)) ≡ some remembered
unfolding matching_policy find String_discrete same_number ℤ_discrete ℕ_discrete
row_found = refl

abbrev live : PolicyInput
live = record {
  from_account_id = "alice-chk";
  to_account_id = "alice-sav";
  amount = int (pos 2_900_000);
  actor_customer_id = some "alice";
  now = 1_000_000_003;
}

-- The policy would deny it now.
live_denied : (decide office live).rule_id ≡ RuleId.nsf
unfolding decide decide_known decide_funds is_positive_int_won get_account find String_discrete
    available_balance pending_out sum_by Side_discrete get_journal JournalStatus_discrete
    Product_discrete AccountStatus_discrete Option_discrete ◌+ℤ◌ ◌-ℤ◌
live_denied = refl

not_frozen : (decide office live).rule_id ≢ RuleId.account_frozen
not_frozen e = cc (live_denied, e)

abbrev denial : String
denial = "teller cannot call transfer; handoff required"

abbrev deny_row : AuditRow
deny_row =
    audit_row
      (record (tool_audit none Actor.agent Action.transfer end Decision.deny_policy
        RuleId.agent_tool_denied denial (session_of "s1" AgentName.teller)) {
          blast_radius = some BlastRadius.medium;
        })
      "a2" 1_000_000_003

abbrev deny_answer : ToolResult
deny_answer =
    record (tool_result false "이 에이전트는 해당 도구를 호출할 수 없습니다. 핸드오프가 필요합니다." Decision.deny_policy
      RuleId.agent_tool_denied denial "a2") { blast_radius = some BlastRadius.medium }

abbrev trace_of : String → AgentName → Action → Fields → ToolResult → Trace
trace_of session_id agent action args answer = record {
  id = "t2";
  session_id = session_id;
  seq = 1;
  agent = agent;
  action = action;
  args = redact_args (obj args);
  result = answer;
  created_at = 1_000_000_004;
}

abbrev deny_after : Db
deny_after = record office {
  audit = office.audit ++ deny_row ∷ [];
  traces = trace_of "s1" AgentName.teller Action.transfer end deny_answer ∷ [];
}

denied : execute_tool host office call ≡ some (deny_answer, deny_after)
unfolding execute_tool is_allowed includes deny_tool logged write_audit audit_row get_audit
    require_audit append_trace get_session find String_discrete Action_discrete agent_name
    action_name redact_args select
denied = refl

teller_other : AgentName.teller ≢ AgentName.transfer
teller_other e = cc

execute_tool-Untouched_example : Untouched office deny_after
execute_tool-Untouched_example =
    execute_tool-Untouched host office call (session_of "s1" AgentName.teller) teller_known
      (inl teller_other) deny_answer deny_after denied

-- The opening transfer sent again under its key.
abbrev again : Fields
again = field "from_account_id" (str "house") (
    field "to_account_id" (str "alice-chk")
      (field "amount" (num (int (pos 3_000_000))) (field "idempotency_key" (str "j0") end)))

abbrev transfer_session : Session
transfer_session = session_of "s2" AgentName.transfer

abbrev replay_row : AuditRow
replay_row =
    audit_row
      (record (tool_audit none Actor.agent Action.transfer again Decision.allow
        RuleId.idempotent_replay "idempotent replay" transfer_session) { journal_id = some "j0" })
      "a2" 1_000_000_003

abbrev replay_answer : ToolResult
replay_answer =
    record (tool_result true "완료" Decision.allow RuleId.idempotent_replay "idempotent replay"
      "a2") {
        journal_id = some "j0";
        journal_status = some JournalStatus.posted;
        result_data = replay_of opening;
      }

abbrev replay_after : Db
replay_after = record office {
  audit = office.audit ++ replay_row ∷ [];
  traces = trace_of "s2" AgentName.transfer Action.transfer again replay_answer ∷ [];
}

replayed :
    tool_transfer host office transfer_session Actor.agent again none
    ≡ some (replay_answer, replay_after)
unfolding tool_transfer transfer_ask transfer_replay same_body same_number replay_copy
    replay_decision text_field number_field idempotency_of get_field set_field trim
    get_journal_by_idempotency logged write_audit audit_row get_audit require_audit append_trace
    get_session find select String_discrete Option_discrete ℤ_discrete JournalStatus_discrete
    Decision_discrete redact_args text_of ℕ_discrete
replayed = refl

key_used :
    get_journal_by_idempotency office (transfer_ask host transfer_session again).key ≡ some opening
unfolding get_journal_by_idempotency transfer_ask idempotency_of get_field trim find String_discrete
    Option_discrete
key_used = refl

tool_transfer-replays_example :
    Untouched office replay_after
    × (replay_answer.journal_id ≡ some "j0")
    × (true ≡ (
        same_body opening (transfer_ask host transfer_session again)
        && not (JournalStatus.posted === JournalStatus.denied)))
tool_transfer-replays_example =
    tool_transfer-replays host office transfer_session Actor.agent again none opening replay_answer
      replay_after key_used replayed

office_fresh : IsFresh office new_ids
unfolding get_journal find String_discrete
office_fresh = record {
  new_journal = refl;
  new_debit = refl;
  new_credit = refl;
  distinct = texts_differ "e5" "e6" refl;
}

-- A transfer that the policy allows.
abbrev sent : Fields
sent = field "from_account_id" (str "alice-chk") (
    field "to_account_id" (str "alice-sav")
      (field "amount" (num (int (pos 1_000))) (field "idempotency_key" (str "k7") end)))

abbrev result_of : Option (ToolResult × Db) → ToolResult
result_of none = replay_answer
result_of (some x) = x.0

abbrev db_of : Option (ToolResult × Db) → Db
db_of none = office
db_of (some x) = x.1

abbrev sending : Option (ToolResult × Db)
sending = tool_transfer host office transfer_session Actor.agent sent none

sent_answer : sending ≡ some (result_of sending, db_of sending)
unfolding tool_transfer transfer_new inbound_decision ask_policy tool_policy_decide transfer_decided
    get_journal_by_idempotency find Option_discrete String_discrete transfer_ask idempotency_of
    get_field set_field trim earlier_denial find_audit_by_idempotency select Action_discrete
    matching_policy text_field text_of same_number number_field logged write_audit audit_row
    get_audit require_audit append_trace get_session ℤ_discrete JournalStatus_discrete
    Decision_discrete redact_args ℕ_discrete decide decide_known decide_funds is_positive_int_won
    get_account available_balance pending_out sum_by Side_discrete get_journal Product_discrete
    AccountStatus_discrete customer_outbound_on_seoul_day customer_outbound seoul_day_utc_range ◌+ℤ◌
    ◌-ℤ◌ policy_now decide_now decide_recorded remember_policy asked_inbound transfer_write
    journal_input transfer_written write_transfer_journal refusal write_new read_journal
    is_unreadable settle_pair insert_journal journal_row insert_entry_pair journal_entries
    entry_sides link_decide_audit update insert_entry
sent_answer = refl

asks_anew :
    matching_policy office "s2"
      (transfer_ask host transfer_session sent).from
      (transfer_ask host transfer_session sent).to
      (transfer_ask host transfer_session sent).amount
    ≡ none
unfolding matching_policy find String_discrete Option_discrete ℤ_discrete transfer_ask text_field
    number_field get_field set_field text_of same_number ℕ_discrete
asks_anew = refl

tool_transfer-LedgerReach_example : LedgerReach office (db_of sending)
tool_transfer-LedgerReach_example =
    tool_transfer-LedgerReach host office transfer_session Actor.agent sent none (result_of sending)
      office_fresh asks_anew sent_answer
