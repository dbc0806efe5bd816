-- ===== src/Operator/Progress.antt =====
-- packages/core/src/agents.ts, `operatorApprove`: the branch that posts, as a whole.
use agentic_bank.Common.{
  ◌≡◌, sym, ap, ◌∙◌, ◌≢◌, refl, List, inl, inr, some, true, Option, arith, ===_of_ne, string_eq,
}
use agentic_bank.Store.{Journal, AuditRow, Db, ToolResult, no_data}
use agentic_bank.Store.Types.{JournalStatus, Actor, Decision, RuleId}
use agentic_bank.Audit.{write_audit, get_or, get_audit}
use agentic_bank.Audit.Log.{write_audit-grows, write_audit-Appended}
use agentic_bank.Ledger.{get_journal}
use agentic_bank.Ledger.Clear.{apply_pending_journal, post_journal}
use agentic_bank.Ledger.Clear.Lifecycle.{apply_pending-Clears}
use agentic_bank.Ledger.Clear.Effect.{get_journal_holds, get_journal-post_self}
use agentic_bank.Policy.{copy_posted}
use agentic_bank.Operator.{
  ClearInput, Call, creator_of, actor_of, require_audit, clear_result, operator_approve,
  approve_pending, approve_known,
}
use agentic_bank.Operator.Review.{approval}
use agentic_bank.Operator.FourEyes.{write_audit-get_journal}

-- The answer of an approval.
abbrev pub approved : Journal → AuditRow → ToolResult
approved j row =
    clear_result true copy_posted Decision.operator_approve RuleId.operator_approve
      "operator approved pending journal" j.decision_ref j.id (some JournalStatus.posted) no_data
      row.audit_id

module _ (db : Db) (input : ClearInput) (call : Call) (actor : Actor) (j : Journal) where
  approve_pending_runs :
      (row : AuditRow) (logged applied : Db) (old : Option Journal) (fresh : Journal)
      → write_audit db (approval input actor j) call.uuid call.now ≡ some (row, logged)
      → apply_pending_journal logged j.id call.applied_at ≡ some (old, applied)
      → get_journal applied j.id ≡ some fresh
      → fresh.decision_ref ≡ j.decision_ref
      → row.audit_id ≢ ""
      → approve_pending db input call actor j ≡ some (approved j row, applied)
  unfolding approve_pending require_audit
  approve_pending_runs row logged applied old fresh w a f same filled =
      rw (w, a, f, ===_of_ne row.audit_id "" filled, same)

approve_pending_branch :
    (db : Db) (input : ClearInput) (call : Call) (j : Journal)
    → get_journal db input.journal_id ≡ some j
    → j.status ≡ JournalStatus.pending
    → actor_of input.actor ≢ creator_of (some j)
    → operator_approve db input call ≡ approve_pending db input call (actor_of input.actor) j
unfolding operator_approve approve_known
approve_pending_branch db input call j known is_pending other = ground arith

module _ (db : Db) (input : ClearInput) (call : Call) (j : Journal) where
  -- An approval by another party of a pending journal succeeds whenever its audit id is not empty:
  -- it answers that the journal is posted, with an id that the audit table holds, and the ledger is
  -- as the posting leaves it, beside the audit table.
  pub operator_approve-posts :
      get_or input.audit_id call.uuid ≢ ""
      → get_journal db input.journal_id ≡ some j
      → j.status ≡ JournalStatus.pending
      → actor_of input.actor ≢ creator_of (some j)
      → (logged : Db) × (row : AuditRow) × (operator_approve db input call
          ≡ some (approved j row, post_journal call.applied_at j.id logged))
        × (get_audit logged (get_or input.audit_id call.uuid) ≡ some row)
        × (logged ≡ record db { audit = logged.audit })
  operator_approve-posts filled known is_pending other =
      let actor = actor_of input.actor in
      let same_id = get_journal_holds db input.journal_id j known in
      let (row, logged, w, (found, _)) =
        write_audit-Appended db (approval input actor j) call.uuid call.now filled in
      let ((rows, grown), has_id) =
        write_audit-grows db (approval input actor j) call.uuid call.now row w in
      let known' : get_journal logged j.id ≡ some j =
        write_audit-get_journal db (approval input actor j) call row j.id w
        ∙ ap (get_journal db) same_id
        ∙ known in
      let runs : operator_approve db input call
          ≡ some (approved j row, post_journal call.applied_at j.id logged) =
        elim (apply_pending-Clears logged j.id call.applied_at (some j) known') [
          | inl (_, done) ↦
              approve_pending_branch db input call j known is_pending other
              ∙ approve_pending_runs db input call actor j row logged _ _ _ w done
                  (get_journal-post_self call.applied_at j.id "" logged j known') refl has_id
          | inr (not_pending, _) ↦ absurd (not_pending is_pending)
        ] in
      (
        logged,
        row,
        runs,
        found,
        grown
            ∙ ap (λ (rs : List AuditRow). record db { audit = rs })
                (sym (ap (λ (d : Db). d.audit) grown)),
      )
