-- ===== src/Closure/Executor.antt =====
-- apps/closure-api/src/executor.ts: the executor of the service over the tools of the agents, and the
-- lookup of a transfer in the ledger by its key. Each tool call is a transaction of its own, so an
-- error keeps what the calls before it have done. Row numbers count the journals from 1.
pub mod Refinement
use agentic_bank.Common.{
  int, ℕ, ◌+◌, Bool, false, not, ◌&&◌, ◌||◌, Option, none, some, List, [], ◌∷◌, String, pos, int_eq,
  if◌then◌else◌, ◌===◌, string_eq, option_eq,
}
use agentic_bank.Store.{Journal, Entry, Session, ToolResult, Db}
use agentic_bank.Store.Args.{Fields, str, num, end, field}
use agentic_bank.Store.Types.{
  Action, Decision, RuleId, JournalStatus, journal_status_eq, decision_eq, rule_id_eq,
}
use agentic_bank.Ledger.{get_journal, get_journal_by_idempotency, journal_entries, journal_by_id}
use agentic_bank.Operator.{Call, operator_approve}
use agentic_bank.Agents.{Host, start_session}
use agentic_bank.Agents.Execution.{ToolInput, execute_tool}
use agentic_bank.Treasury.{handoff_call}
use agentic_bank.Closure.Reconcile.{
  ClosureExecutor, TransferInput, ExecutedTransfer, Execution, executed, refused,
}

-- The place of the first journal with the id.
unfoldable pub row_number : String → List Journal → ℕ → Option ℕ
row_number id [] n = none
row_number id (j ∷ js) n =
    let rest = row_number id js (n + 1) in if journal_by_id id j then some (n + 1) else rest

-- `entries.length !== 2 || entries.some((entry) => entry.posted !== 1)`
unfoldable pub is_posted_pair : List Entry → Bool
is_posted_pair (debit ∷ (credit ∷ [])) = debit.posted && credit.posted
is_posted_pair _ = false

abbrev looked_up : Db → Journal → Option ℕ → Option ExecutedTransfer
looked_up db journal none = none
looked_up db journal (some seq) = some (record {
  journal_id = journal.id;
  ledger_sequence = seq;
  from_account_id = journal.from_account_id;
  to_account_id = journal.to_account_id;
  amount = journal.amount;
})

unfoldable pub lookup_synthetic_transfer : Db → String → Option ExecutedTransfer
unfolding row_number is_posted_pair
lookup_synthetic_transfer db idempotency_key =
    elim (get_journal_by_idempotency db idempotency_key) [
      | none ↦ none
      | some journal ↦
          if journal.status === JournalStatus.posted
            && is_posted_pair (journal_entries db journal.id)
          then looked_up db journal (row_number journal.id db.journals 0)
          else none
    ]

abbrev has_text : Option String → Bool
has_text none = false
has_text (some text) = not (text === "")

-- A transfer that the policy allows is posted at once, and one under dual control waits.
unfoldable pub is_posted_now : ToolResult → Bool
is_posted_now result =
    result.ok
    && has_text result.journal_id
    && result.journal_status === some JournalStatus.posted
    && result.decision === Decision.allow
    && result.rule_id === RuleId.allow

unfoldable pub is_waiting : ToolResult → Bool
is_waiting result =
    result.ok
    && has_text result.journal_id
    && result.journal_status === some JournalStatus.pending
    && result.decision === Decision.dual_control

unfoldable pub is_final : ToolResult → Bool
is_final posted =
    posted.ok
    && posted.journal_status === some JournalStatus.posted
    && has_text posted.journal_id
    && (posted.decision === Decision.allow || posted.decision === Decision.operator_approve)

or_refused : Option ExecutedTransfer → Execution
or_refused none = refused
or_refused (some transfer) = executed transfer

-- The journal and its entries are those of the authorized transfer.
unfoldable pub matches_input : TransferInput → Db → Journal → Bool
unfolding is_posted_pair
matches_input input db journal =
    journal.status === JournalStatus.posted
    && journal.amount === pos input.amount
    && journal.from_account_id === input.from_account_id
    && journal.to_account_id === input.to_account_id
    && is_posted_pair (journal_entries db journal.id)

unfoldable pub checked_journal : TransferInput → Db → Option Journal → Execution
unfolding matches_input or_refused row_number
checked_journal input db none = refused
checked_journal input db (some journal) =
    if matches_input input db journal
    then or_refused (looked_up db journal (row_number journal.id db.journals 0))
    else refused

journal_of_result : Db → Option String → Option Journal
journal_of_result db none = none
journal_of_result db (some id) = get_journal db id

unfoldable pub after_posted : TransferInput → Db → ToolResult → Execution × Db
unfolding checked_journal journal_of_result is_final
after_posted input db posted =
    if is_final posted
    then (checked_journal input db (journal_of_result db posted.journal_id), db)
    else (refused, db)

abbrev pub text_of : Option String → String
text_of none = ""
text_of (some text) = text

-- What the calls of one execution draw.
pub record ExecutorHost : Type 0 where
  pub session_uuid : String
  pub session_at : ℕ
  pub handoff_host : Host
  pub transfer_host : Host
  pub approval : Call

abbrev pub transfer_fields : TransferInput → Fields
transfer_fields input = field "from_account_id" (str input.from_account_id) (
    field "to_account_id" (str input.to_account_id) (
      field "amount" (num (int (pos input.amount)))
        (field "idempotency_key" (str input.idempotency_key) end)))

abbrev pub transfer_tool : TransferInput → Session → ToolInput
transfer_tool input session = record {
  session_id = session.id;
  action = Action.transfer;
  args = transfer_fields input;
  actor = none;
  audit_id = none;
}

module _ (host : ExecutorHost) where
  unfoldable pub after_transfer : TransferInput → Db → ToolResult → Execution × Db
  unfolding after_posted is_posted_now is_waiting
  after_transfer input db result =
      if not (is_posted_now result) && is_waiting result
      then elim (operator_approve db
          (record { journal_id = text_of result.journal_id; audit_id = none; actor = none })
          host.approval) [
            | none ↦ (refused, db)
            | some (approved, after) ↦ after_posted input after approved
          ]
      else after_posted input db result

  -- The handoff names the agent as its actor, which is what an actor that is left out stands for.
  unfoldable pub in_session : TransferInput → Db → Session → Execution × Db
  unfolding after_transfer
  in_session input db session = elim (execute_tool host.handoff_host db (handoff_call session)) [
    | none ↦ (refused, db)
    | some (_, handed) ↦
        elim (execute_tool host.transfer_host handed (transfer_tool input session)) [
          | none ↦ (refused, handed)
          | some (result, after) ↦ after_transfer input after result
        ]
  ]

  unfoldable pub execute_synthetic_transfer : Db → TransferInput → Execution × Db
  unfolding in_session
  execute_synthetic_transfer db input =
      elim (start_session db input.customer_id host.session_uuid host.session_at) [
        | none ↦ (refused, db)
        | some (session, started) ↦ in_session input started session
      ]

  -- `defaultClosureExecutor`
  abbrev pub default_closure_executor : ClosureExecutor
  default_closure_executor = record {
    execute = execute_synthetic_transfer;
    lookup = lookup_synthetic_transfer;
  }
