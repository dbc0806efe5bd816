-- ===== src/Operator/FourEyes.antt =====
-- packages/core/src/agents.ts: who may clear a pending journal.
use agentic_bank.Common.{◌≡◌, sym, ap, ◌∙◌, ◌≢◌, ◌⊎◌, inl, inr, some, String, >>=-some, string_eq}
use agentic_bank.Store.{Journal, AuditRow, Db, ToolResult}
use agentic_bank.Store.Types.{JournalStatus, Actor}
use agentic_bank.Audit.{WriteAuditInput, write_audit}
use agentic_bank.Audit.Log.{write_audit-grows}
use agentic_bank.Ledger.{get_journal}
use agentic_bank.Ledger.Clear.{mark_posted, post_journal}
use agentic_bank.Ledger.Clear.Lifecycle.{apply_pending-Clears}
use agentic_bank.Ledger.Clear.Effect.{get_journal_holds, get_journal-post_self}
use agentic_bank.Operator.{
  ClearInput, Call, creator_of, actor_of, audited, require_audit, operator_approve, approve_self,
  approve_replay, approve_settled, approve_pending,
}
use agentic_bank.Operator.Review.{approve_branches, approval, approve_pending_steps}

-- The audit row leaves every journal.
pub write_audit-get_journal :
    (db : Db) {logged : Db} (input : WriteAuditInput) (call : Call) (row : AuditRow) (id : String)
    → write_audit db input call.uuid call.now ≡ some (row, logged)
    → get_journal logged id ≡ get_journal db id
unfolding get_journal
write_audit-get_journal db input call row id w =
    let ((rows, grown), _) = write_audit-grows db input call.uuid call.now row w in rw grown

-- A call that only writes its audit row leaves every journal.
pub audited-get_journal :
    (db : Db) {after : Db} (call : Call) (input : WriteAuditInput) (result : String → ToolResult)
    (r : ToolResult) (id : String)
    → audited db call input result ≡ some (r, after)
    → get_journal after id ≡ get_journal db id
audited-get_journal db {after} call input result r id e =
    let ((row, logged), w, rest) = >>=-some (write_audit db input call.uuid call.now) _ e in
    let (audit_id, _, last) = >>=-some (require_audit row) _ rest in
    let same : after ≡ logged = cc last in rw same (write_audit-get_journal db input call row id w)

approve_pending-get_journal :
    (db : Db) {after : Db} (input : ClearInput) (call : Call) (actor : Actor) (j : Journal)
    (r : ToolResult)
    → get_journal db j.id ≡ some j
    → j.status ≡ JournalStatus.pending
    → approve_pending db input call actor j ≡ some (r, after)
    → get_journal after j.id ≡ some (mark_posted call.applied_at j)
approve_pending-get_journal db {after} input call actor j r known is_pending e =
    let (row, logged, old, w, a) = approve_pending_steps db input call actor j r e in
    let known' : get_journal logged j.id ≡ some j =
      write_audit-get_journal db (approval input actor j) call row j.id w ∙ known in
    elim (apply_pending-Clears logged j.id call.applied_at (some j) known') [
      | inl (_, done) ↦
          let same : after ≡ post_journal call.applied_at j.id logged = cc (a, done) in
          rw same (get_journal-post_self call.applied_at j.id "" logged j known')
      | inr (not_pending, _) ↦ absurd (not_pending is_pending)
    ]

-- The journal is pending and the caller is not the party that created it.
abbrev pub IsClearable : ClearInput → Journal → Type 0
IsClearable input j =
    (actor_of input.actor ≢ creator_of (some j)) × (j.status ≡ JournalStatus.pending)

module _ (db : Db) {after : Db} (input : ClearInput) (call : Call) (r : ToolResult)
    (j : Journal) where
  -- An approval of a known journal that returns posts it, with all its other fields as they were, if
  -- the journal is pending and the caller is not the party that created it, and leaves it as it is
  -- if not.
  pub operator_approve-four_eyes :
      get_journal db input.journal_id ≡ some j
      → operator_approve db input call ≡ some (r, after)
      → (IsClearable input j
          × (get_journal after input.journal_id
              ≡ some
                  (record j { status = JournalStatus.posted; posted_at = some call.applied_at })))
        ⊎ (¬ IsClearable input j × (get_journal after input.journal_id ≡ some j))
  unfolding approve_self approve_replay approve_settled
  operator_approve-four_eyes known e =
      let same_id = get_journal_holds db input.journal_id j known in
      elim (approve_branches db input call j known) [
        | inl (self, b) ↦
            inr (λ c. c.0 self, audited-get_journal db call _ _ r _ (sym b ∙ e) ∙ known)
        | inr (inl (settled, b)) ↦
            inr (λ c. settled c.1, audited-get_journal db call _ _ r _ (sym b ∙ e) ∙ known)
        | inr (inr (inl (settled, b))) ↦
            inr (λ c. settled c.1, audited-get_journal db call _ _ r _ (sym b ∙ e) ∙ known)
        | inr (inr (inr (other, is_pending, b))) ↦ inl (
          (other, is_pending),
          ap (get_journal after) (sym same_id)
              ∙ approve_pending-get_journal db input call (actor_of input.actor) j r
                  (ap (get_journal db) same_id ∙ known) is_pending (sym b ∙ e),
        )
      ]
