-- ===== src/Agents/Untouched/Execution.antt =====
-- packages/core/src/agents.ts, `executeTool`: which calls can reach the tables of the ledger.
use agentic_bank.Common.{
  ◌≡◌, ◌≢◌, ◌⊎◌, inl, inr, refl, sym, ap, ◌∙◌, includes, true, false, not, ◌&&◌, ◌===◌, some,
  Option, String, arith, >>=-some, Bool-cases, string_eq,
}
use agentic_bank.Store.{Journal, AuditRow, Session, ToolResult, Db}
use agentic_bank.Store.Args.{Fields}
use agentic_bank.Store.Types.{
  Actor, Action, AgentName, JournalStatus, journal_status_eq, Action_discrete, action_eq,
}
use agentic_bank.Audit.{WriteAuditInput, write_audit, get_or}
use agentic_bank.Ledger.{get_journal_by_idempotency}
use agentic_bank.Operator.{require_audit}
use agentic_bank.Agents.{Host, logged, append_trace, get_session, is_allowed, deny_tool}
use agentic_bank.Agents.Execution.{ToolInput, run_tool, execute_tool}
use agentic_bank.Agents.Transfer.{
  TransferAsk, transfer_ask, same_body, transfer_replay, transfer_conflict,
}
use agentic_bank.Agents.Transfer.Write.{tool_transfer}
use agentic_bank.Agents.Untouched.{Untouched, Untouched-refl, Keeps, logged-Keeps}
use agentic_bank.Agents.Untouched.Tools.{
  tool_balance-Keeps, tool_handoff-Keeps, tool_policy_decide-Keeps, tool_open_dispute-Keeps,
}

module _ (host : Host) (db : Db) (session : Session) (actor : Actor) (args : Fields)
    (audit_id : Option String) where
  pub deny_tool-Keeps :
      (action : Action) → Keeps db (deny_tool host db session action args actor audit_id)
  unfolding deny_tool
  deny_tool-Keeps action = logged-Keeps host session _ _ action args (Untouched-refl db)

  run_tool-Keeps :
      (action : Action)
      → action ≢ Action.transfer
      → Keeps db (run_tool host db session actor action args audit_id)
  unfolding run_tool
  run_tool-Keeps Action.balance ne = tool_balance-Keeps host db session actor args audit_id
  run_tool-Keeps Action.handoff ne = tool_handoff-Keeps host db session actor args audit_id
  run_tool-Keeps Action.transfer ne = absurd (ne refl)
  run_tool-Keeps Action.policy_decide ne =
      tool_policy_decide-Keeps host db session actor args audit_id
  run_tool-Keeps Action.open_dispute ne =
      tool_open_dispute-Keeps host db session actor args audit_id
  run_tool-Keeps Action.operator_approve ne = λ r after e. absurd (cc)
  run_tool-Keeps Action.operator_deny ne = λ r after e. absurd (cc)
  run_tool-Keeps Action.account_status ne = λ r after e. absurd (cc)
  run_tool-Keeps Action.shop_enroll ne = λ r after e. absurd (cc)
  run_tool-Keeps Action.kyc_submit ne = λ r after e. absurd (cc)
  run_tool-Keeps Action.kyc_resolve ne = λ r after e. absurd (cc)

-- The transfer tool belongs to the transfer agent alone.
others_transfer :
    (agent : AgentName) → agent ≢ AgentName.transfer → is_allowed agent Action.transfer ≡ false
unfolding is_allowed Action_discrete includes
others_transfer AgentName.teller ne = refl
others_transfer AgentName.transfer ne = absurd (ne refl)
others_transfer AgentName.dispute ne = refl

pub execute_branches :
    (host : Host) (db : Db) (input : ToolInput) (session : Session)
    → get_session db input.session_id ≡ some session
    → ((is_allowed session.current_agent input.action ≡ true)
        × (execute_tool host db input
            ≡ run_tool host db session
                (get_or input.actor Actor.agent)
                input.action
                input.args
                input.audit_id))
      ⊎ ((is_allowed session.current_agent input.action ≡ false)
          × (execute_tool host db input
              ≡ deny_tool host db session input.action input.args
                  (get_or input.actor Actor.agent)
                  input.audit_id))
unfolding execute_tool
execute_branches host db input session known =
    elim (Bool-cases (is_allowed session.current_agent input.action)) [
      | inl allowed ↦ inl (allowed, ground arith)
      | inr refused ↦ inr (refused, ground arith)
    ]

-- A tool call leaves the accounts, the journals and the entries as they are, unless it is the
-- transfer tool in the hands of the transfer agent.
pub execute_tool-Untouched :
    (host : Host) (db : Db) (input : ToolInput) (session : Session)
    → get_session db input.session_id ≡ some session
    → (session.current_agent ≢ AgentName.transfer) ⊎ (input.action ≢ Action.transfer)
    → (r : ToolResult) (after : Db) → execute_tool host db input ≡ some (r, after)
    → Untouched db after
execute_tool-Untouched host db input session known other r after e =
    elim (execute_branches host db input session known) [
      | inr (_, b) ↦
          deny_tool-Keeps host db session _ input.args input.audit_id input.action r after
            (sym b ∙ e)
      | inl (allowed, b) ↦
          run_tool-Keeps host db session _ input.args input.audit_id input.action
            (no_transfer allowed other) r after (sym b ∙ e)
    ]
  where
    no_transfer :
        is_allowed session.current_agent input.action ≡ true
        → (session.current_agent ≢ AgentName.transfer) ⊎ (input.action ≢ Action.transfer)
        → input.action ≢ Action.transfer
    no_transfer allowed (inr ne) same = ne same
    no_transfer allowed (inl ne) same = cc (
      allowed,
      others_transfer session.current_agent ne,
      ap (is_allowed session.current_agent) same,
    )

-- What a call returns that ends with its audit row and trace.
logged-result :
    (host : Host) (db : Db) {after : Db} (session : Session) (row : WriteAuditInput)
    (result : AuditRow → String → ToolResult) (action : Action) (args : Fields) (r : ToolResult)
    → logged host db session row result action args ≡ some (r, after)
    → (audit : AuditRow) × (id : String) × (r ≡ result audit id)
unfolding logged
logged-result host db session row result action args r e =
    let ((audit, audited), _, rest) =
      >>=-some (write_audit db row host.audit_uuid host.audit_at) _ e in
    let (id, _, rest') = >>=-some (require_audit audit) _ rest in
    let (traced, _, last) =
      >>=-some
        (append_trace audited session action args (result audit id) host.trace_uuid host.trace_at) _
        rest' in
    (audit, id, cc last)

module _ (host : Host) (db : Db) (session : Session) (actor : Actor) (args : Fields)
    (audit_id : Option String) (existing : Journal) where
  abbrev ask : TransferAsk
  ask = transfer_ask host session args

  -- What a transfer under a used key comes to.
  abbrev Replays : ToolResult → Db → Type 0
  Replays r after =
      Untouched db after
      × (r.journal_id ≡ some existing.id)
      × (r.ok ≡ (same_body existing ask && not (existing.status === JournalStatus.denied)))

  replay-Replays :
      (r : ToolResult) (after : Db)
      → same_body existing ask ≡ true
      → transfer_replay host db session actor ask audit_id existing ≡ some (r, after)
      → Replays r after
  unfolding transfer_replay
  replay-Replays r after same e =
      let (audit, id, shape) = logged-result host db session _ _ _ ask.args r e in
      (
        logged-Keeps host session _ _ _ ask.args (Untouched-refl db) r after e,
        ap (λ (x : ToolResult). x.journal_id) shape,
        rw same (ap (λ (x : ToolResult). x.ok) shape),
      )

  conflict-Replays :
      (r : ToolResult) (after : Db)
      → same_body existing ask ≡ false
      → transfer_conflict host db session actor ask audit_id existing ≡ some (r, after)
      → Replays r after
  unfolding transfer_conflict
  conflict-Replays r after differs e =
      let (audit, id, shape) = logged-result host db session _ _ _ ask.args r e in
      (
        logged-Keeps host session _ _ _ ask.args (Untouched-refl db) r after e,
        ap (λ (x : ToolResult). x.journal_id) shape,
        rw differs (ap (λ (x : ToolResult). x.ok) shape),
      )

  used_key :
      get_journal_by_idempotency db ask.key ≡ some existing
      → ((same_body existing ask ≡ true)
          × (tool_transfer host db session actor args audit_id
              ≡ transfer_replay host db session actor ask audit_id existing))
        ⊎ ((same_body existing ask ≡ false)
            × (tool_transfer host db session actor args audit_id
                ≡ transfer_conflict host db session actor ask audit_id existing))
  unfolding tool_transfer
  used_key known = elim (Bool-cases (same_body existing ask)) [
    | inl same ↦ inl (same, ground arith)
    | inr differs ↦ inr (differs, ground arith)
  ]

  -- A transfer under a key that a journal has already leaves the ledger's tables: it answers with
  -- that journal's id, and successfully exactly when source, destination and amount agree and the
  -- journal was not denied.
  pub tool_transfer-replays :
      (r : ToolResult) (after : Db)
      → get_journal_by_idempotency db (transfer_ask host session args).key ≡ some existing
      → tool_transfer host db session actor args audit_id ≡ some (r, after)
      → Untouched db after
        × (r.journal_id ≡ some existing.id)
        × (r.ok ≡ (
            same_body existing (transfer_ask host session args)
            && not (existing.status === JournalStatus.denied)))
  tool_transfer-replays r after known e = elim (used_key known) [
    | inl (same, b) ↦ replay-Replays r after same (sym b ∙ e)
    | inr (differs, b) ↦ conflict-Replays r after differs (sym b ∙ e)
  ]
