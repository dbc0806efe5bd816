-- ===== src/Treasury/Execution.antt =====
-- packages/core/src/treasury.ts, `executeProposal`: the execution of a proposal as a history of the
-- ledger.
use agentic_bank.Common.{
  ℕ, ◌≡◌, inl, inr, refl, sym, ap, ◌∙◌, Option, none, some, ℤ, String, string_eq, not, ◌===◌, find,
  arith, >>=-some, throw_if, Number, find_holds,
}
use agentic_bank.Store.{AuditRow, Session, ToolResult, Db}
use agentic_bank.Store.Args.{Fields}
use agentic_bank.Store.Types.{Actor, Action, AgentName, action_eq}
use agentic_bank.Audit.{WriteAuditInput, write_audit, get_or}
use agentic_bank.Audit.Log.{write_audit-grows}
use agentic_bank.Operator.{require_audit}
use agentic_bank.Agents.Args.{text_field}
use agentic_bank.Agents.Tools.{handoff_to, handoff_refused}
use agentic_bank.Ledger.{get_journal}
use agentic_bank.Ledger.Write.{FreshIds}
use agentic_bank.Ledger.Write.Effect.{IsFresh}
use agentic_bank.Transfers.{LedgerReach, here, next}
use agentic_bank.Agents.{
  Host, get_session, session_by_id, is_allowed, start_session, matching_policy, deny_tool, logged,
  append_trace,
}
use agentic_bank.Agents.Execution.{ToolInput, execute_tool, run_tool}
use agentic_bank.Agents.Transfer.{transfer_ask}
use agentic_bank.Agents.Untouched.{Untouched, Untouched-trans}
use agentic_bank.Agents.Untouched.Tools.{handoff_branches}
use agentic_bank.Agents.Untouched.Execution.{
  execute_tool-Untouched, execute_branches, deny_tool-Keeps,
}
use agentic_bank.Agents.Refinement.Transfer.{tool_transfer-LedgerReach, moved}
use agentic_bank.Treasury.{
  ProposalId, ProposalView, treasury_customer_id, chosen_proposal, nothing_to_execute, handoff_call,
  transfer_call, execute_proposal,
}

-- A session remembers no decision of the policy.
abbrev pub RemembersNothing : Db → String → Type 0
RemembersNothing db session_id = find (λ p. p.session_id === session_id) db.session_policy ≡ none

pub remembers_none :
    (db after : Db) (i j : String)
    → j ≡ i
    → after.session_policy ≡ db.session_policy
    → RemembersNothing db i
    → RemembersNothing after j
remembers_none db after i j same kept h = rw (same, kept) h

matching-none :
    (db : Db) (session_id from to : String) (amount : Number)
    → RemembersNothing db session_id
    → matching_policy db session_id from to amount ≡ none
unfolding matching_policy
matching-none db session_id from to amount h = rw (h, matching_policy)

pub IsFresh-kept :
    {db after : Db} (ids : FreshIds) → Untouched db after → IsFresh db ids → IsFresh after ids
unfolding get_journal
IsFresh-kept ids u f = record {
  new_journal = rw u.same_journals f.new_journal;
  new_debit = rw u.same_entries f.new_debit;
  new_credit = rw u.same_entries f.new_credit;
  distinct = f.distinct;
}

pub LedgerReach-trans :
    {db middle after : Db} → LedgerReach db middle → LedgerReach middle after → LedgerReach db after
LedgerReach-trans a here = a
LedgerReach-trans a (next b step) = next (LedgerReach-trans a b) step

run_transfer :
    (host : Host) (db : Db) (session : Session) (actor : Actor) (args : Fields)
    (audit_id : Option String)
    → run_tool host db session actor Action.transfer args audit_id
      ≡ agentic_bank.Agents.Transfer.Write.tool_transfer host db session actor args audit_id
unfolding run_tool
run_transfer host db session actor args audit_id = refl

session_has_id :
    (db : Db) (session_id : String) (session : Session)
    → get_session db session_id ≡ some session
    → session.id ≡ session_id
unfolding get_session
session_has_id db session_id session known =
    ground (arith, find_holds (session_by_id session_id) db.sessions session known)

append_trace-session_policy :
    (db : Db) {after : Db} (session : Session) (action : Action) (args : Fields)
    (result : ToolResult) (uuid : String) (now : ℕ)
    → append_trace db session action args result uuid now ≡ some after
    → after.session_policy ≡ db.session_policy
unfolding append_trace
append_trace-session_policy db session action args result uuid now e = ground arith

-- A call of the transfer tool in a session that remembers nothing.
pub execute_transfer-LedgerReach :
    (host : Host) (db : Db) {after : Db} (input : ToolInput) (session : Session) (r : ToolResult)
    → input.action ≡ Action.transfer
    → get_session db input.session_id ≡ some session
    → IsFresh db host.journal_uuids
    → RemembersNothing db session.id
    → execute_tool host db input ≡ some (r, after)
    → LedgerReach db after
execute_transfer-LedgerReach host db {after} input session r is_transfer known fresh nothing e =
    elim (execute_branches host db input session known) [
      | inr (_, b) ↦ moved (
          deny_tool-Keeps host db session (get_or input.actor Actor.agent) input.args input.audit_id
            input.action r after (sym b ∙ e))
      | inl (_, b) ↦
          tool_transfer-LedgerReach host db session (get_or input.actor Actor.agent) input.args
            input.audit_id r fresh (matching-none db session.id _ _ _ nothing)
            (sym (
                run_transfer host db session (get_or input.actor Actor.agent) input.args
                  input.audit_id)
              ∙ ap
                  (λ action.
                    run_tool host db session (get_or input.actor Actor.agent) action input.args
                      input.audit_id)
                  (sym is_transfer)
              ∙ sym b
              ∙ e)
    ]

-- The session of a call that returns.
pub session_of_call :
    (host : Host) (db : Db) {after : Db} (input : ToolInput) (r : ToolResult)
    → execute_tool host db input ≡ some (r, after)
    → (session : Session) × (get_session db input.session_id ≡ some session)
      × (session.id ≡ input.session_id)
unfolding execute_tool
session_of_call host db input r e =
    let (session, known, _) = >>=-some (get_session db input.session_id) _ e in
    (session, known, session_has_id db input.session_id session known)

-- A call of a tool that ends with its audit row and trace keeps what the sessions remember.
logged-session_policy :
    (host : Host) (db : Db) {after : Db} (session : Session) (row : WriteAuditInput)
    (result : AuditRow → String → ToolResult) (action : Action) (args : Fields) (r : ToolResult)
    → logged host db session row result action args ≡ some (r, after)
    → after.session_policy ≡ db.session_policy
unfolding logged
logged-session_policy host db {after} session row result action args r e =
    let ((audit, audited), w, rest) =
      >>=-some (write_audit db row host.audit_uuid host.audit_at) _ e in
    let ((rows, grown), _) = write_audit-grows db _ _ _ audit w in
    let (id, _, rest') = >>=-some (require_audit audit) _ rest in
    let (traced, t, last) =
      >>=-some
        (append_trace audited session action args (result audit id) host.trace_uuid host.trace_at) _
        rest' in
    let same : traced ≡ after = cc last in
    let kept : traced.session_policy ≡ audited.session_policy =
      append_trace-session_policy audited session action args (result audit id) host.trace_uuid
        host.trace_at t in
    rw (sym same) (rw (kept, grown))

module _ (host : Host) (db : Db) {after : Db} (session : Session) (actor : Actor) (args : Fields)
    (audit_id : Option String) where
  handoff_to-session_policy :
      (to : AgentName) (r : ToolResult)
      → handoff_to host db session actor args audit_id to ≡ some (r, after)
      → after.session_policy ≡ db.session_policy
  unfolding handoff_to
  handoff_to-session_policy to r e = logged-session_policy host _ _ _ _ _ args r e

  handoff_refused-session_policy :
      (to : String) (r : ToolResult)
      → handoff_refused host db session actor args audit_id to ≡ some (r, after)
      → after.session_policy ≡ db.session_policy
  unfolding handoff_refused
  handoff_refused-session_policy to r e = logged-session_policy host db _ _ _ _ args r e

  deny_tool-session_policy :
      (action : Action) (r : ToolResult)
      → deny_tool host db session action args actor audit_id ≡ some (r, after)
      → after.session_policy ≡ db.session_policy
  unfolding deny_tool
  deny_tool-session_policy action r e = logged-session_policy host db _ _ _ _ args r e

  tool_handoff-session_policy :
      (r : ToolResult)
      → run_tool host db session actor Action.handoff args audit_id ≡ some (r, after)
      → after.session_policy ≡ db.session_policy
  unfolding run_tool
  tool_handoff-session_policy r e = elim (handoff_branches host db session actor args audit_id) [
    | inl b ↦ handoff_refused-session_policy (text_field "to" "" args) r (sym b ∙ e)
    | inr (to, b) ↦ handoff_to-session_policy to r (sym b ∙ e)
  ]

pub handoff_call-session_policy :
    (host : Host) (db : Db) {after : Db} (started : Session) (r : ToolResult)
    → execute_tool host db (handoff_call started) ≡ some (r, after)
    → Untouched db after × (after.session_policy ≡ db.session_policy)
unfolding handoff_call
handoff_call-session_policy host db {after} started r e =
    let input = handoff_call started in
    let (session, known, _) = session_of_call host db input r e in
    (
      execute_tool-Untouched host db input session known (inr (λ h. cc h)) r after e,
      elim (execute_branches host db input session known) [
        | inl (_, b) ↦
            tool_handoff-session_policy host db session Actor.agent input.args none r (sym b ∙ e)
        | inr (_, b) ↦
            deny_tool-session_policy host db session Actor.agent input.args none Action.handoff r
              (sym b ∙ e)
      ],
    )

transfer_call-action :
    (p : ProposalView) (s : Session) → (transfer_call p s).action ≡ Action.transfer
unfolding transfer_call
transfer_call-action p s = refl

transfer_call-session : (p : ProposalView) (s : Session) → (transfer_call p s).session_id ≡ s.id
unfolding transfer_call
transfer_call-session p s = refl

pub start_session-Untouched :
    (db : Db) {after : Db} (customer_id uuid : String) (now : ℕ) (session : Session)
    → start_session db customer_id uuid now ≡ some (session, after)
    → Untouched db after × (after.session_policy ≡ db.session_policy) × (session.id ≡ uuid)
unfolding start_session
start_session-Untouched db customer_id uuid now session e = (
  record {
    same_accounts = ground arith;
    same_journals = ground arith;
    same_entries = ground arith;
  },
  ground arith,
  ground arith,
)

-- Executing a proposal that returns is a history of the ledger, when the ids of the new journal and
-- its entries are not in use and no decision is remembered under the id of the new session: the
-- transfer follows the policy at the time of its write, whatever the proposal says.
pub execute_proposal-LedgerReach :
    (locale : ℤ → String) (handoff_host transfer_host : Host) (db after : Db) (customer_id : String)
    (id : ProposalId) (uuid : String) (now : ℕ) (r : ToolResult)
    → IsFresh db transfer_host.journal_uuids
    → RemembersNothing db uuid
    → execute_proposal locale handoff_host transfer_host db customer_id id uuid now
      ≡ some (r, after)
    → LedgerReach db after
unfolding execute_proposal
execute_proposal-LedgerReach locale h1 h2 db after customer_id id uuid now r fresh nothing e =
    let (_, _, e1) = >>=-some (throw_if (not (customer_id === treasury_customer_id))) _ e in
    let (_, _, e2) =
      >>=-some (throw_if (nothing_to_execute (chosen_proposal locale db customer_id id))) _ e1 in
    let ((started, d1), s, e3) = >>=-some (start_session db customer_id uuid now) _ e2 in
    let ((answer, d2), h, e4) = >>=-some (execute_tool h1 d1 (handoff_call started)) _ e3 in
    let (u1, p1, named) = start_session-Untouched db customer_id uuid now started s in
    let (u2, p2) = handoff_call-session_policy h1 d1 started answer h in
    let call = transfer_call (chosen_proposal locale db customer_id id) started in
    let (session, known, of) = session_of_call h2 d2 call r e4 in
    let before = Untouched-trans u1 u2 in
    LedgerReach-trans (moved before) (
      execute_transfer-LedgerReach h2 d2 call session r (transfer_call-action _ started) known
        (IsFresh-kept h2.journal_uuids before fresh)
        (remembers_none db d2 uuid session.id (of ∙ transfer_call-session _ started ∙ named)
          (p2 ∙ p1) nothing)
        e4)
