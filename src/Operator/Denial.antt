-- ===== src/Operator/Denial.antt =====
-- packages/core/src/agents.ts, `operatorDeny`: who may deny a pending journal, and what it leaves.
use agentic_bank.Common.{
  ◌≡◌, sym, ap, ◌∙◌, ◌≢◌, ◌⊎◌, inl, inr, some, Option, arith, >>=-some, string_eq,
}
use agentic_bank.Store.{Journal, AuditRow, Db, ToolResult}
use agentic_bank.Store.Types.{JournalStatus, Actor, Action, Decision, RuleId}
use agentic_bank.Audit.{WriteAuditInput, write_audit}
use agentic_bank.Ledger.{get_journal}
use agentic_bank.Ledger.Clear.{mark_denied, reject_pending_journal, deny_journal}
use agentic_bank.Ledger.Clear.Lifecycle.{reject_pending-Clears}
use agentic_bank.Ledger.Clear.Effect.{get_journal_holds, get_journal-deny_self}
use agentic_bank.Operator.{ClearInput, Call, creator_of, actor_of, require_audit, clear_audit}
use agentic_bank.Operator.Deny.{operator_deny, deny_self, deny_not_pending, deny_pending}
use agentic_bank.Operator.FourEyes.{IsClearable, write_audit-get_journal, audited-get_journal}

-- The steps of the branch that denies.
abbrev denial : ClearInput → Actor → Journal → WriteAuditInput
denial input actor j =
    clear_audit input.audit_id actor Action.operator_deny j.id Decision.operator_deny
      RuleId.operator_deny "operator denied pending journal"

deny_pending_steps :
    (db : Db) {after : Db} (input : ClearInput) (call : Call) (actor : Actor) (j : Journal)
    (r : ToolResult)
    → deny_pending db input call actor j ≡ some (r, after)
    → (row : AuditRow) × (logged : Db) × (old : Option Journal) × (write_audit db
          (denial input actor j)
          call.uuid
          call.now
        ≡ some (row, logged))
      × (reject_pending_journal logged j.id ≡ some (old, after))
unfolding deny_pending
deny_pending_steps db {after} input call actor j r e =
    let ((row, logged), w, rest) =
      >>=-some (write_audit db (denial input actor j) call.uuid call.now) _ e in
    let ((old, rejected), a, rest') = >>=-some (reject_pending_journal logged j.id) _ rest in
    let (fresh, _, rest'') = >>=-some (get_journal rejected j.id) _ rest' in
    let (audit_id, _, last) = >>=-some (require_audit row) _ rest'' in
    let same : rejected ≡ after = cc last in (row, logged, old, w, rw (sym same) a)

deny_pending-get_journal :
    (db : Db) {after : Db} (input : ClearInput) (call : Call) (actor : Actor) (j : Journal)
    (r : ToolResult)
    → get_journal db j.id ≡ some j
    → j.status ≡ JournalStatus.pending
    → deny_pending db input call actor j ≡ some (r, after)
    → get_journal after j.id ≡ some (mark_denied j)
deny_pending-get_journal db {after} input call actor j r known is_pending e =
    let (row, logged, old, w, a) = deny_pending_steps db input call actor j r e in
    let known' : get_journal logged j.id ≡ some j =
      write_audit-get_journal db (denial input actor j) call row j.id w ∙ known in
    elim (reject_pending-Clears logged j.id (some j) known') [
      | inl (_, done) ↦
          let same : after ≡ deny_journal j.id logged = cc (a, done) in
          rw same (get_journal-deny_self j.id "" logged j known')
      | inr (not_pending, _) ↦ absurd (not_pending is_pending)
    ]

deny_branches :
    (db : Db) (input : ClearInput) (call : Call) (j : Journal)
    → get_journal db input.journal_id ≡ some j
    → let actor = actor_of input.actor in
      ((actor ≡ creator_of (some j))
        × (operator_deny db input call ≡ deny_self db input call actor))
      ⊎ (((j.status ≢ JournalStatus.pending)
            × (operator_deny db input call ≡ deny_not_pending db input call actor))
          ⊎ ((actor ≢ creator_of (some j))
              × (j.status ≡ JournalStatus.pending)
              × (operator_deny db input call ≡ deny_pending db input call actor j)))
unfolding operator_deny
deny_branches db input call j e = ground arith

module _ (db : Db) {after : Db} (input : ClearInput) (call : Call) (r : ToolResult) where
  -- A denial of a known journal that returns marks it denied, with all its other fields as they
  -- were, if the journal is pending and the caller is not the party that created it, and leaves it
  -- as it is if not.
  pub operator_deny-four_eyes :
      (j : Journal)
      → get_journal db input.journal_id ≡ some j
      → operator_deny db input call ≡ some (r, after)
      → (IsClearable input j
          × (get_journal after input.journal_id
              ≡ some (record j { status = JournalStatus.denied })))
        ⊎ (¬ IsClearable input j × (get_journal after input.journal_id ≡ some j))
  unfolding deny_self deny_not_pending
  operator_deny-four_eyes j known e =
      let same_id = get_journal_holds db input.journal_id j known in
      elim (deny_branches db input call j known) [
        | inl (self, b) ↦
            inr (λ c. c.0 self, audited-get_journal db call _ _ r _ (sym b ∙ e) ∙ known)
        | inr (inl (settled, b)) ↦
            inr (λ c. settled c.1, audited-get_journal db call _ _ r _ (sym b ∙ e) ∙ known)
        | inr (inr (other, is_pending, b)) ↦ inl (
          (other, is_pending),
          ap (get_journal after) (sym same_id)
              ∙ deny_pending-get_journal db input call (actor_of input.actor) j r
                  (ap (get_journal db) same_id ∙ known) is_pending (sym b ∙ e),
        )
      ]
