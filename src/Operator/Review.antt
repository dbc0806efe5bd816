-- ===== src/Operator/Review.antt =====
-- packages/core/src/agents.ts: what the operator's calls do to a journal under review.
use agentic_bank.Common.{
  ◌++◌, ◌≡◌, sym, ◌∙◌, Option-cases, ◌≢◌, ◌⊎◌, inl, inr, none, some, String, Option, arith,
  >>=-some, string_eq,
}
use agentic_bank.Store.{Journal, AuditRow, Db, ToolResult}
use agentic_bank.Store.Types.{JournalStatus, Actor, Action, Decision, RuleId}
use agentic_bank.Audit.{WriteAuditInput, write_audit}
use agentic_bank.Audit.Log.{write_audit-grows}
use agentic_bank.Ledger.{get_journal}
use agentic_bank.Ledger.Clear.{apply_pending_journal}
use agentic_bank.Transfers.{LedgerReach, elsewhere, approves, here, next}
use agentic_bank.Operator.{
  ClearInput, Call, creator_of, actor_of, audited, require_audit, operator_approve, approve_known,
  approve_pending, clear_audit, approve_replay, approve_settled, approve_self, approve_unknown,
}

-- One audit row is a step of the ledger.
pub write_audit-LedgerReach :
    {db after : Db} (input : WriteAuditInput) (call : Call) (row : AuditRow)
    → write_audit db input call.uuid call.now ≡ some (row, after)
    → LedgerReach db after
write_audit-LedgerReach {db} input call row e =
    let ((rows, same), _) = write_audit-grows db input call.uuid call.now row e in
    rw same (next here (elsewhere (record db { audit = db.audit ++ rows })))

pub audited-LedgerReach :
    {db after : Db} (call : Call) (input : WriteAuditInput) (result : String → ToolResult)
    (r : ToolResult)
    → audited db call input result ≡ some (r, after)
    → LedgerReach db after
audited-LedgerReach {db} {after} call input result r e =
    let ((row, audited_db), w, rest) = >>=-some (write_audit db input call.uuid call.now) _ e in
    let (audit_id, _, last) = >>=-some (require_audit row) _ rest in
    let same : after ≡ audited_db = cc last in rw same (write_audit-LedgerReach input call row w)

-- The steps of the branch that posts.
abbrev pub approval : ClearInput → Actor → Journal → WriteAuditInput
approval input actor j =
    clear_audit input.audit_id actor Action.operator_approve j.id Decision.operator_approve
      RuleId.operator_approve "operator approved pending journal"

pub approve_pending_steps :
    (db : Db) {after : Db} (input : ClearInput) (call : Call) (actor : Actor) (j : Journal)
    (r : ToolResult)
    → approve_pending db input call actor j ≡ some (r, after)
    → (row : AuditRow) × (logged : Db) × (old : Option Journal) × (write_audit db
          (approval input actor j)
          call.uuid
          call.now
        ≡ some (row, logged))
      × (apply_pending_journal logged j.id call.applied_at ≡ some (old, after))
unfolding approve_pending
approve_pending_steps db {after} input call actor j r e =
    let ((row, logged), w, rest) =
      >>=-some (write_audit db (approval input actor j) call.uuid call.now) _ e in
    let ((old, applied), a, rest') =
      >>=-some (apply_pending_journal logged j.id call.applied_at) _ rest in
    let (fresh, _, rest'') = >>=-some (get_journal applied j.id) _ rest' in
    let (audit_id, _, last) = >>=-some (require_audit row) _ rest'' in
    let same : applied ≡ after = cc last in (row, logged, old, w, rw (sym same) a)

approve_pending-LedgerReach :
    {db after : Db} (input : ClearInput) (call : Call) (actor : Actor) (j : Journal)
    (r : ToolResult)
    → approve_pending db input call actor j ≡ some (r, after)
    → LedgerReach db after
approve_pending-LedgerReach {db} input call actor j r e =
    let (row, logged, old, w, a) = approve_pending_steps db input call actor j r e in
    next (write_audit-LedgerReach (approval input actor j) call row w)
      (approves j.id call.applied_at old a)

approve_replay-LedgerReach :
    {db after : Db} (input : ClearInput) (call : Call) (actor : Actor) (j : Journal)
    (r : ToolResult)
    → approve_replay db input call actor j ≡ some (r, after)
    → LedgerReach db after
unfolding approve_replay
approve_replay-LedgerReach input call actor j r e = audited-LedgerReach call _ _ r e

approve_settled-LedgerReach :
    {db after : Db} (input : ClearInput) (call : Call) (actor : Actor) (j : Journal)
    (r : ToolResult)
    → approve_settled db input call actor j ≡ some (r, after)
    → LedgerReach db after
unfolding approve_settled
approve_settled-LedgerReach input call actor j r e = audited-LedgerReach call _ _ r e

-- A refusal by either call writes its audit row only.
approve_self-LedgerReach :
    {db after : Db} (input : ClearInput) (call : Call) (actor : Actor) (j : Option Journal)
    (r : ToolResult)
    → approve_self db input call actor j ≡ some (r, after)
    → LedgerReach db after
unfolding approve_self
approve_self-LedgerReach input call actor j r e = audited-LedgerReach call _ _ r e

approve_unknown-LedgerReach :
    {db after : Db} (input : ClearInput) (call : Call) (actor : Actor) (r : ToolResult)
    → approve_unknown db input call actor ≡ some (r, after)
    → LedgerReach db after
unfolding approve_unknown
approve_unknown-LedgerReach input call actor r e = audited-LedgerReach call _ _ r e

-- The branches of the two calls for a journal that is known.
pub approve_branches :
    (db : Db) (input : ClearInput) (call : Call) (j : Journal)
    → get_journal db input.journal_id ≡ some j
    → let actor = actor_of input.actor in
      ((actor ≡ creator_of (some j))
        × (operator_approve db input call ≡ approve_self db input call actor (some j)))
      ⊎ (((j.status ≢ JournalStatus.pending)
            × (operator_approve db input call ≡ approve_replay db input call actor j))
          ⊎ (((j.status ≢ JournalStatus.pending)
                × (operator_approve db input call ≡ approve_settled db input call actor j))
              ⊎ ((actor ≢ creator_of (some j))
                  × (j.status ≡ JournalStatus.pending)
                  × (operator_approve db input call ≡ approve_pending db input call actor j))))
unfolding operator_approve approve_known
approve_branches db input call j e = ground arith

approve_unknown_branches :
    (db : Db) (input : ClearInput) (call : Call)
    → get_journal db input.journal_id ≡ none
    → let actor = actor_of input.actor in
      (operator_approve db input call ≡ approve_self db input call actor none)
      ⊎ (operator_approve db input call ≡ approve_unknown db input call actor)
unfolding operator_approve
approve_unknown_branches db input call e = ground arith

-- An approval that returns is a history of the ledger: at most the posting of a pending journal,
-- beside rows of the audit table.
pub operator_approve-LedgerReach :
    {db after : Db} (input : ClearInput) (call : Call) (r : ToolResult)
    → operator_approve db input call ≡ some (r, after)
    → LedgerReach db after
operator_approve-LedgerReach {db} input call r e =
    let actor = actor_of input.actor in
    elim (Option-cases (get_journal db input.journal_id)) [
      | inl unknown ↦ elim (approve_unknown_branches db input call unknown) [
        | inl b ↦ approve_self-LedgerReach input call actor none r (sym b ∙ e)
        | inr b ↦ approve_unknown-LedgerReach input call actor r (sym b ∙ e)
      ]
      | inr (j, known) ↦ elim (approve_branches db input call j known) [
        | inl (_, b) ↦ approve_self-LedgerReach input call actor (some j) r (sym b ∙ e)
        | inr (inl (_, b)) ↦ approve_replay-LedgerReach input call actor j r (sym b ∙ e)
        | inr (inr (inl (_, b))) ↦ approve_settled-LedgerReach input call actor j r (sym b ∙ e)
        | inr (inr (inr (_, _, b))) ↦ approve_pending-LedgerReach input call actor j r (sym b ∙ e)
      ]
    ]
