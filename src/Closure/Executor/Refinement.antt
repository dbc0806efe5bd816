-- ===== src/Closure/Executor/Refinement.antt =====
-- apps/closure-api/src/executor.ts, `executeSyntheticTransfer`, as a history of the ledger.
use agentic_bank.Common.{◌≡◌, refl, inl, inr, not, ◌&&◌, none, Bool-cases, Option-cases}
use agentic_bank.Store.{Session, ToolResult, Db}
use agentic_bank.Operator.{ClearInput, operator_approve}
use agentic_bank.Operator.Review.{operator_approve-LedgerReach}
use agentic_bank.Ledger.Write.Effect.{IsFresh}
use agentic_bank.Transfers.{LedgerReach, here}
use agentic_bank.Agents.{start_session}
use agentic_bank.Agents.Execution.{execute_tool}
use agentic_bank.Agents.Refinement.Transfer.{moved}
use agentic_bank.Treasury.{handoff_call}
use agentic_bank.Treasury.Execution.{
  RemembersNothing, handoff_call-session_policy, start_session-Untouched, session_of_call,
  LedgerReach-trans, IsFresh-kept, remembers_none, execute_transfer-LedgerReach,
}
use agentic_bank.Closure.Reconcile.{TransferInput}
use agentic_bank.Closure.Executor.{
  ExecutorHost, is_posted_now, is_waiting, is_final, after_posted, after_transfer, transfer_tool,
  in_session, execute_synthetic_transfer, text_of,
}

module _ (host : ExecutorHost) where
  after_posted-same :
      (input : TransferInput) (db : Db) (posted : ToolResult)
      → (after_posted input db posted).1 ≡ db
  unfolding after_posted
  after_posted-same input db posted = elim (Bool-cases (is_final posted)) [
    | inl final ↦ rw (after_posted, final)
    | inr other ↦ rw (after_posted, other)
  ]

  after_transfer-LedgerReach :
      (input : TransferInput) (db : Db) (result : ToolResult)
      → LedgerReach db (after_transfer host input db result).1
  unfolding after_transfer
  after_transfer-LedgerReach input db result =
      elim (Bool-cases (not (is_posted_now result) && is_waiting result)) [
        | inr done ↦ rw (after_transfer, done, after_posted-same input db result) here
        | inl waits ↦
            let clear : ClearInput = record {
              journal_id = text_of result.journal_id;
              audit_id = none;
              actor = none;
            } in
            elim (Option-cases (operator_approve db clear host.approval)) [
              | inl throws ↦ rw (after_transfer, waits, throws) here
              | inr ((approved, after), e) ↦
                  rw (after_transfer, waits, e, after_posted-same input after approved)
                    (operator_approve-LedgerReach clear host.approval approved e)
            ]
      ]

  in_session-LedgerReach :
      (input : TransferInput) (db : Db) (session : Session)
      → IsFresh db host.transfer_host.journal_uuids
      → RemembersNothing db session.id
      → LedgerReach db (in_session host input db session).1
  unfolding in_session
  in_session-LedgerReach input db session fresh nothing =
      elim (Option-cases (execute_tool host.handoff_host db (handoff_call session))) [
        | inl throws ↦ rw (in_session, throws) here
        | inr ((answer, handed), h) ↦
            let (u, kept) = handoff_call-session_policy host.handoff_host db session answer h in
            let call = transfer_tool input session in
            elim (Option-cases (execute_tool host.transfer_host handed call)) [
              | inl throws ↦ rw (in_session, h, throws) (moved u)
              | inr ((result, after), e) ↦
                  let (found, known, of) =
                    session_of_call host.transfer_host handed call result e in
                  rw (in_session, h, e)
                    (LedgerReach-trans (moved u) (
                      LedgerReach-trans
                        (execute_transfer-LedgerReach host.transfer_host handed call found result
                          refl known (IsFresh-kept host.transfer_host.journal_uuids u fresh)
                          (remembers_none db handed session.id found.id of kept nothing) e)
                        (after_transfer-LedgerReach input after result)))
            ]
      ]

  -- Whatever the executor comes to, the database that it leaves is reached from the one it was given
  -- by the steps of the ledger, when the ids of the new journal and its entries are not in use and no
  -- decision is remembered under the id of the new session.
  pub execute_synthetic_transfer-LedgerReach :
      (db : Db) (input : TransferInput)
      → IsFresh db host.transfer_host.journal_uuids
      → RemembersNothing db host.session_uuid
      → LedgerReach db (execute_synthetic_transfer host db input).1
  unfolding execute_synthetic_transfer
  execute_synthetic_transfer-LedgerReach db input fresh nothing =
      elim (Option-cases (start_session db input.customer_id host.session_uuid host.session_at)) [
        | inl throws ↦ rw (execute_synthetic_transfer, throws) here
        | inr ((session, started), s) ↦
            let (u, kept, named) =
              start_session-Untouched db input.customer_id host.session_uuid host.session_at session
                s in
            rw (execute_synthetic_transfer, s)
              (LedgerReach-trans (moved u) (
                in_session-LedgerReach input started session
                  (IsFresh-kept host.transfer_host.journal_uuids u fresh)
                  (remembers_none db started host.session_uuid session.id named kept nothing)))
      ]
