-- ===== src/Agents/Untouched/Tools.antt =====
-- packages/core/src/agents.ts: each tool but the transfer, and the tables of the ledger.
use agentic_bank.Common.{
  ◌≡◌, ◌⊎◌, inl, inr, refl, sym, ◌∙◌, some, Option, String, arith, >>=-some, Option-cases,
  string_eq, String_discrete, ◌>>=◌,
}
use agentic_bank.Store.{AuditRow, Session, Db, Dispute, PolicyResult}
use agentic_bank.Store.Args.{Fields}
use agentic_bank.Store.Types.{Actor, Action, AgentName, Decision, decision_eq}
use agentic_bank.Audit.{write_audit, find_audit_by_idempotency}
use agentic_bank.Ledger.{account_view, get_account}
use agentic_bank.Operator.{require_audit}
use agentic_bank.Agents.{Host, remember_policy}
use agentic_bank.Agents.Args.{text_field, number_field, idempotency_of}
use agentic_bank.Agents.Tools.{
  balance_refused, balance_shown, balance_known, tool_balance, handoff_to, handoff_refused,
  tool_handoff, new_dispute, insert_dispute, dispute_opened, dispute_refused, tool_open_dispute,
  agent_named,
}
use agentic_bank.Agents.Decide.{
  decide_replayed, decide_replay, decide_audit, policy_now, decide_answer, decide_recorded,
  decide_now, tool_policy_decide, earlier_denial,
}
use agentic_bank.Agents.Untouched.{
  Untouched, Untouched-refl, Untouched-trans, Keeps, logged-Keeps, traced-Keeps,
  write_audit-Untouched, remember_policy-Untouched,
}

module _ (host : Host) (db : Db) (session : Session) (actor : Actor) (args : Fields)
    (audit_id : Option String) where
  balance_refused-Keeps : Keeps db (balance_refused host db session actor args audit_id)
  unfolding balance_refused
  balance_refused-Keeps = logged-Keeps host session _ _ _ args (Untouched-refl db)

  balance_known-Keeps : Keeps db (balance_known host db session actor args audit_id)
  unfolding balance_known balance_shown
  balance_known-Keeps r after e =
      let (shown, _, rest) = >>=-some (account_view db (text_field "account_id" "" args)) _ e in
      logged-Keeps host session _ _ _ args (Untouched-refl db) r after rest

  balance_branches :
      (tool_balance host db session actor args audit_id
        ≡ balance_refused host db session actor args audit_id)
      ⊎ (tool_balance host db session actor args audit_id
          ≡ balance_known host db session actor args audit_id)
  unfolding tool_balance
  balance_branches = elim (Option-cases (get_account db (text_field "account_id" "" args))) [
    | inl unknown ↦ ground arith
    | inr (acc, known) ↦ ground arith
  ]

  pub tool_balance-Keeps : Keeps db (tool_balance host db session actor args audit_id)
  tool_balance-Keeps r after e = elim balance_branches [
    | inl b ↦ balance_refused-Keeps r after (sym b ∙ e)
    | inr b ↦ balance_known-Keeps r after (sym b ∙ e)
  ]

  handoff_to-Keeps : (to : AgentName) → Keeps db (handoff_to host db session actor args audit_id to)
  unfolding handoff_to
  handoff_to-Keeps to =
      logged-Keeps host _ _ _ _ args
        (record { same_accounts = refl; same_journals = refl; same_entries = refl })

  handoff_refused-Keeps :
      (to : String) → Keeps db (handoff_refused host db session actor args audit_id to)
  unfolding handoff_refused
  handoff_refused-Keeps to = logged-Keeps host session _ _ _ args (Untouched-refl db)

  pub handoff_branches :
      (tool_handoff host db session actor args audit_id
        ≡ handoff_refused host db session actor args audit_id (text_field "to" "" args))
      ⊎ ((to : AgentName) × (tool_handoff host db session actor args audit_id
            ≡ handoff_to host db session actor args audit_id to))
  unfolding tool_handoff
  handoff_branches = elim (Option-cases (agent_named (text_field "to" "" args))) [
    | inl unknown ↦ inl (ground arith)
    | inr (to, known) ↦ inr (to, ground arith)
  ]

  pub tool_handoff-Keeps : Keeps db (tool_handoff host db session actor args audit_id)
  tool_handoff-Keeps r after e = elim handoff_branches [
    | inl b ↦ handoff_refused-Keeps (text_field "to" "" args) r after (sym b ∙ e)
    | inr (to, b) ↦ handoff_to-Keeps to r after (sym b ∙ e)
  ]

  pub decide_replay-Keeps : (row : AuditRow) → Keeps db (decide_replay host db session args row)
  unfolding decide_replay
  decide_replay-Keeps row r after e =
      let (remembered, m, rest) =
        >>=-some
          (remember_policy db session.id (text_field "from_account_id" "" args)
            (text_field "to_account_id" "" args) (number_field host.number_of "amount" args)
            row.decision row.rule_id row.audit_id host.decide_draws.remembered_at)
          _ e in
      let (id, _, rest') = >>=-some (require_audit row) _ rest in
      traced-Keeps session Action.policy_decide args (decide_replayed row id)
        host.decide_draws.trace_uuid host.decide_draws.trace_at
        (remember_policy-Untouched session.id _ _ _ _ _ _ _ m) r after rest'

  decide_recorded-Keeps :
      (middle : Db) (result : PolicyResult) (row : AuditRow)
      → Untouched db middle
      → Keeps db (decide_recorded host middle session args result row)
  unfolding decide_recorded
  decide_recorded-Keeps middle result row h r after e =
      let (id, _, rest) = >>=-some (require_audit row) _ e in
      let (remembered, m, rest') =
        >>=-some
          (remember_policy middle session.id (text_field "from_account_id" "" args)
            (text_field "to_account_id" "" args) (number_field host.number_of "amount" args)
            result.decision result.rule_id id host.decide_draws.remembered_at)
          _ rest in
      traced-Keeps session Action.policy_decide args (decide_answer result row id)
        host.decide_draws.trace_uuid host.decide_draws.trace_at
        (Untouched-trans h (remember_policy-Untouched session.id _ _ _ _ _ _ _ m)) r after rest'

  pub decide_now-Keeps : Keeps db (decide_now host db session actor args audit_id)
  unfolding decide_now
  decide_now-Keeps r after e =
      let result = policy_now host db session args in
      let ((row, audited), w, rest) =
        >>=-some
          (write_audit db (decide_audit session actor args audit_id result)
            host.decide_draws.audit_uuid host.decide_draws.audit_at)
          _ e in
      decide_recorded-Keeps audited result row (write_audit-Untouched _ _ _ row w) r after rest

  earlier_denial-decision :
      (key : String) (row : AuditRow)
      → earlier_denial host db Action.policy_decide key
          (text_field "from_account_id" "" args)
          (text_field "to_account_id" "" args)
          (number_field host.number_of "amount" args)
        ≡ some row
      → row.decision ≡ Decision.deny_policy
  unfolding earlier_denial
  earlier_denial-decision key row e =
      elim (Option-cases
        (find_audit_by_idempotency db Action.policy_decide key (some Decision.deny_policy))) [
          | inl absent ↦ absurd (ground arith)
          | inr (found, there) ↦ ground arith
        ]

  pub policy_decide_branches :
      (tool_policy_decide host db session actor args audit_id
        ≡ decide_now host db session actor args audit_id)
      ⊎ ((row : AuditRow) × (row.decision ≡ Decision.deny_policy)
          × (tool_policy_decide host db session actor args audit_id
              ≡ decide_replay host db session args row))
  unfolding tool_policy_decide
  policy_decide_branches =
      elim (Option-cases (
        earlier_denial host db Action.policy_decide (idempotency_of args)
          (text_field "from_account_id" "" args) (text_field "to_account_id" "" args)
          (number_field host.number_of "amount" args))) [
            | inl none_before ↦ inl (ground arith)
            | inr (row, found) ↦ elim (String_discrete (idempotency_of args) "") [
              | yes no_key ↦ inl (ground arith)
              | no key ↦ inr (row, earlier_denial-decision _ row found, ground arith)
            ]
          ]

  pub tool_policy_decide-Keeps : Keeps db (tool_policy_decide host db session actor args audit_id)
  tool_policy_decide-Keeps r after e = elim policy_decide_branches [
    | inl b ↦ decide_now-Keeps r after (sym b ∙ e)
    | inr (row, _, b) ↦ decide_replay-Keeps row r after (sym b ∙ e)
  ]

  insert_dispute-Untouched :
      (d : Dispute) {after : Db} → insert_dispute d db ≡ some after → Untouched db after
  unfolding insert_dispute
  insert_dispute-Untouched d e = record {
    same_accounts = ground arith;
    same_journals = ground arith;
    same_entries = ground arith;
  }

  dispute_branches :
      (tool_open_dispute host db session actor args audit_id
        ≡ dispute_refused host db session actor args audit_id)
      ⊎ (tool_open_dispute host db session actor args audit_id ≡ (
          insert_dispute (new_dispute host session args) db
          >>= dispute_opened host session actor args audit_id))
  unfolding tool_open_dispute
  dispute_branches = ground arith

  dispute_refused-Keeps : Keeps db (dispute_refused host db session actor args audit_id)
  unfolding dispute_refused
  dispute_refused-Keeps = logged-Keeps host session _ _ _ args (Untouched-refl db)

  dispute_opened-Keeps :
      (middle : Db)
      → Untouched db middle
      → Keeps db (dispute_opened host session actor args audit_id middle)
  unfolding dispute_opened
  dispute_opened-Keeps middle h = logged-Keeps host session _ _ _ args h

  pub tool_open_dispute-Keeps : Keeps db (tool_open_dispute host db session actor args audit_id)
  tool_open_dispute-Keeps r after e = elim dispute_branches [
    | inl b ↦ dispute_refused-Keeps r after (sym b ∙ e)
    | inr b ↦
        let (middle, i, rest) =
          >>=-some (insert_dispute (new_dispute host session args) db) _ (sym b ∙ e) in
        dispute_opened-Keeps middle (insert_dispute-Untouched _ i) r after rest
  ]
