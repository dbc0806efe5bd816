-- ===== src/Tests/Treasury.antt =====
-- Proposals and books of the sample customer.
use agentic_bank.Common.{
  ◌≡◌, ◌≢◌, ◌⊎◌, refl, Option, none, some, true, false, List, [], ◌∷◌, String, ℤ, pos,
  String_discrete, Option_discrete, ℤ_discrete, find, select, includes, trim, delete, sum_by,
  update, ◌+ℤ◌, ◌-ℤ◌, ◌<ℤ◌, arith, same_number, is_positive_int_won,
}
use native.Mathlib.Decide.{ℕ_discrete}
use agentic_bank.Store.{Journal, Db, ToolResult}
use agentic_bank.Store.Types.{
  RuleId, Decision, Product, JournalStatus, Side, Action_discrete, Side_discrete, Product_discrete,
  AccountStatus_discrete, Decision_discrete, JournalStatus_discrete,
}
use agentic_bank.Ledger.{
  get_journal, entry_sides, customer_outbound, get_journal_by_idempotency, get_account,
  journal_entries, available_balance, pending_out,
}
use agentic_bank.Transfers.{LedgerReach}
use agentic_bank.Ledger.Write.Effect.{IsFresh}
use agentic_bank.Agents.{
  get_session, logged, start_session, remember_policy, is_allowed, tool_result, matching_policy,
  append_trace, link_decide_audit, Host,
}
use agentic_bank.Treasury.{
  transfer_call, build_idle_proposal, overlay_journal, is_dismissed, chosen_proposal,
  list_proposals, build_rebalance_proposal, shown_journal, nothing_to_execute, handoff_call,
  build_proposal, product_name, proposal_name, ProposalId, execute_proposal,
}
use agentic_bank.Treasury.Plan.{
  rebalance_plan_of, idle_sweep_amount, acc_alice_eq, acc_alice_bond, rebalance_plan, Meets,
  rebalance_plan-Meets,
}
use agentic_bank.Treasury.Execution.{RemembersNothing, execute_proposal-LedgerReach}
use agentic_bank.Bookkeeper.{
  BookDoc, books_view, is_held, set_book_document, is_book_doc, list_book_documents,
}
use agentic_bank.Bookkeeper.Household.{net_of, counts, books_view-net}
use agentic_bank.Bookkeeper.Documents.{set_book_document-is_held}
use agentic_bank.Policy.{customer_outbound_on_seoul_day, decide_funds, decide_known, decide}
use agentic_bank.Operator.{require_audit}
use agentic_bank.Time.{seoul_day_utc_range}
use agentic_bank.Audit.{find_audit_by_idempotency, audit_row, get_audit, write_audit}
use agentic_bank.Store.Args.{set_field, get_field}
use agentic_bank.Ledger.Write.{
  refusal, insert_entry, insert_entry_pair, insert_journal, journal_row, write_transfer_journal,
  write_new, read_journal, is_unreadable, settle_pair,
}
use agentic_bank.Audit.Redact.{redact_args}
use agentic_bank.Agents.Transfer.{ask_policy, asked_inbound, inbound_decision, transfer_ask}
use agentic_bank.Agents.Execution.{run_tool, execute_tool}
use agentic_bank.Agents.Tools.{tool_handoff, handoff_to, agent_named}
use agentic_bank.Agents.Decide.{
  decide_recorded, tool_policy_decide, decide_now, earlier_denial, policy_now,
}
use agentic_bank.Agents.Args.{text_field, text_of, number_field, idempotency_of}
use agentic_bank.Agents.Transfer.Write.{
  transfer_new, journal_input, transfer_write, transfer_written, transfer_decided, tool_transfer,
}
use agentic_bank.Tests.{bank, row_of, journal_of, line, new_ids, texts_differ}
use agentic_bank.Tests.Tools.{host}

abbrev opened : String → String → ℤ → Journal
opened id account amount = journal_of id "house" account amount JournalStatus.posted

-- 8,500,000 won in checking, 7,600 in equity and 2,400 in bonds.
abbrev vault : Db
vault = record bank {
  customers = "syn_alice" ∷ [];
  accounts =
      row_of "house" none Product.house
      ∷ row_of "acc_alice_chk" (some "syn_alice") Product.checking
      ∷ row_of "acc_alice_mmf" (some "syn_alice") Product.savings
      ∷ row_of "acc_alice_eq" (some "syn_alice") Product.savings
      ∷ row_of "acc_alice_bond" (some "syn_alice") Product.savings
      ∷ [];
  journals = opened "j0" "acc_alice_chk" (pos 8_500_000) ∷ [];
  entries =
      line "e1" "j0" "acc_alice_chk" Side.credit (pos 8_500_000) true
      ∷ line "e2" "j0" "acc_alice_eq" Side.credit (pos 7_600) true
      ∷ line "e3" "j0" "acc_alice_bond" Side.credit (pos 2_400) true
      ∷ [];
}

abbrev locale : ℤ → String
locale _ = "1"

equity_held : available_balance vault acc_alice_eq ≡ pos 7_600
unfolding available_balance sum_by Side_discrete String_discrete ◌+ℤ◌ ◌-ℤ◌
equity_held = refl

bond_held : available_balance vault acc_alice_bond ≡ pos 2_400
unfolding available_balance sum_by Side_discrete String_discrete ◌+ℤ◌ ◌-ℤ◌
bond_held = refl

held_together :
    pos 0 <ℤ available_balance vault acc_alice_eq +ℤ available_balance vault acc_alice_bond
unfolding available_balance sum_by Side_discrete String_discrete ◌+ℤ◌ ◌-ℤ◌
held_together = omega arith

rebalance_plan-Meets_example :
    Meets
      (rebalance_plan vault)
      (available_balance vault acc_alice_eq)
      (available_balance vault acc_alice_bond)
rebalance_plan-Meets_example =
    rebalance_plan-Meets vault (rw equity_held (omega arith)) (rw bond_held (omega arith))
      held_together

abbrev keeping : Option (List BookDoc × Db)
keeping = set_book_document vault "syn_alice" "insurance_policy" true 1_000_000_005

abbrev docs_of : Option (List BookDoc × Db) → List BookDoc
docs_of none = []
docs_of (some x) = x.0

abbrev left_of : Option (List BookDoc × Db) → Db
left_of none = vault
left_of (some x) = x.1

set_done : keeping ≡ some (docs_of keeping, left_of keeping)
unfolding set_book_document is_book_doc find includes String_discrete
set_done = refl

books_view-net_example :
    (books_view locale vault "syn_alice").in_total
      -ℤ (books_view locale vault "syn_alice").out_total
    ≡ sum_by (net_of vault "syn_alice") (select counts vault.journals)
books_view-net_example = books_view-net locale vault "syn_alice"

set_book_document-is_held_example :
    (is_held (left_of keeping) "syn_alice" "insurance_policy" ≡ true)
    × ((other d : String)
        → (other ≢ "syn_alice") ⊎ (d ≢ "insurance_policy")
        → is_held (left_of keeping) other d ≡ is_held vault other d)
    × (docs_of keeping ≡ list_book_documents (left_of keeping) "syn_alice")
set_book_document-is_held_example =
    set_book_document-is_held vault (left_of keeping) "syn_alice" "insurance_policy" true
      1_000_000_005 (docs_of keeping) set_done

abbrev handoff_host : Host
handoff_host = record host { audit_uuid = "a8"; trace_uuid = "t8" }

abbrev no_answer : ToolResult
no_answer = tool_result false "" Decision.deny_policy RuleId.allow "" ""

abbrev result_of : Option (ToolResult × Db) → ToolResult
result_of none = no_answer
result_of (some x) = x.0

abbrev db_of : Option (ToolResult × Db) → Db
db_of none = vault
db_of (some x) = x.1

-- The idle cash is swept.
abbrev sweeping : Option (ToolResult × Db)
sweeping =
    execute_proposal locale handoff_host host vault "syn_alice" ProposalId.treasury_idle "s9"
      1_000_000_003

swept : sweeping ≡ some (result_of sweeping, db_of sweeping)
unfolding execute_proposal chosen_proposal list_proposals build_proposal build_idle_proposal
    build_rebalance_proposal is_dismissed overlay_journal shown_journal product_name proposal_name
    nothing_to_execute transfer_call handoff_call idle_sweep_amount rebalance_plan rebalance_plan_of
    start_session execute_tool run_tool is_allowed tool_handoff handoff_to agent_named includes
    delete tool_transfer transfer_new inbound_decision ask_policy tool_policy_decide
    transfer_decided get_journal_by_idempotency find Option_discrete String_discrete transfer_ask
    idempotency_of get_field set_field trim earlier_denial find_audit_by_idempotency select
    Action_discrete matching_policy text_field text_of same_number number_field logged write_audit
    audit_row get_audit require_audit append_trace get_session ℤ_discrete JournalStatus_discrete
    Decision_discrete redact_args ℕ_discrete decide decide_known decide_funds is_positive_int_won
    get_account available_balance pending_out sum_by Side_discrete get_journal Product_discrete
    AccountStatus_discrete customer_outbound_on_seoul_day customer_outbound seoul_day_utc_range ◌+ℤ◌
    ◌-ℤ◌ policy_now decide_now decide_recorded remember_policy asked_inbound transfer_write
    journal_input transfer_written write_transfer_journal refusal write_new read_journal
    is_unreadable settle_pair insert_journal journal_row insert_entry_pair journal_entries
    entry_sides link_decide_audit update insert_entry
swept = refl

swept_journal : (result_of sweeping).journal_id ≡ some "j2"
unfolding execute_proposal chosen_proposal list_proposals build_proposal build_idle_proposal
    build_rebalance_proposal is_dismissed overlay_journal shown_journal product_name proposal_name
    nothing_to_execute transfer_call handoff_call idle_sweep_amount rebalance_plan rebalance_plan_of
    start_session execute_tool run_tool is_allowed tool_handoff handoff_to agent_named includes
    delete tool_transfer transfer_new inbound_decision ask_policy tool_policy_decide
    transfer_decided get_journal_by_idempotency find Option_discrete String_discrete transfer_ask
    idempotency_of get_field set_field trim earlier_denial find_audit_by_idempotency select
    Action_discrete matching_policy text_field text_of same_number number_field logged write_audit
    audit_row get_audit require_audit append_trace get_session ℤ_discrete JournalStatus_discrete
    Decision_discrete redact_args ℕ_discrete decide decide_known decide_funds is_positive_int_won
    get_account available_balance pending_out sum_by Side_discrete get_journal Product_discrete
    AccountStatus_discrete customer_outbound_on_seoul_day customer_outbound seoul_day_utc_range ◌+ℤ◌
    ◌-ℤ◌ policy_now decide_now decide_recorded remember_policy asked_inbound transfer_write
    journal_input transfer_written write_transfer_journal refusal write_new read_journal
    is_unreadable settle_pair insert_journal journal_row insert_entry_pair journal_entries
    entry_sides link_decide_audit update insert_entry
swept_journal = refl

vault_fresh : IsFresh vault new_ids
unfolding get_journal find String_discrete
vault_fresh = record {
  new_journal = refl;
  new_debit = refl;
  new_credit = refl;
  distinct = texts_differ "e5" "e6" refl;
}

nothing_remembered : RemembersNothing vault "s9"
unfolding find
nothing_remembered = refl

execute_proposal-LedgerReach_example : LedgerReach vault (db_of sweeping)
execute_proposal-LedgerReach_example =
    execute_proposal-LedgerReach locale handoff_host host vault (db_of sweeping) "syn_alice"
      ProposalId.treasury_idle "s9" 1_000_000_003 (result_of sweeping) vault_fresh
      nothing_remembered swept
