-- ===== src/Agents/Memory.antt =====
-- packages/core/src/agents.ts, `rememberPolicy` and `matchingPolicy`: the decision that a session
-- keeps for its next transfer.
use agentic_bank.Common.{
  ◌≡◌, ◌∙◌, inl, inr, none, Option, String, String_discrete, Number, non_int, >>=-none, string_eq,
  ℕ,
}
use agentic_bank.Store.{AuditRow, Session, Db, PolicyResult}
use agentic_bank.Store.Args.{Fields}
use agentic_bank.Store.Types.{Actor, Decision, RuleId, rule_id_eq}
use agentic_bank.Audit.{write_audit}
use agentic_bank.Operator.{require_audit}
use agentic_bank.Agents.{Host, remember_policy}
use agentic_bank.Agents.Args.{text_field, number_field}
use agentic_bank.Agents.Decide.{
  decide_replay, decide_recorded, decide_now, tool_policy_decide, decide_audit, policy_now,
}
use agentic_bank.Agents.Untouched.Tools.{policy_decide_branches}

remember_nan :
    (db : Db) (session_id from to : String) (amount : Number) (d : Decision) (r : RuleId)
    (id : String) (now : ℕ)
    → amount ≡ non_int "NaN"
    → remember_policy db session_id from to amount d r id now ≡ none
unfolding remember_policy String_discrete
remember_nan db session_id from to amount d r id now nan = rw nan

module _ (host : Host) (db : Db) (session : Session) (actor : Actor) (args : Fields)
    (audit_id : Option String)
    (nan : number_field host.number_of "amount" args ≡ non_int "NaN") where
  replay_nan : (row : AuditRow) → decide_replay host db session args row ≡ none
  unfolding decide_replay
  replay_nan row = rw (
      remember_nan db session.id (text_field "from_account_id" "" args)
        (text_field "to_account_id" "" args) _ row.decision row.rule_id row.audit_id
        host.decide_draws.remembered_at nan)

  recorded_nan :
      (middle : Db) (result : PolicyResult) (row : AuditRow)
      → decide_recorded host middle session args result row ≡ none
  unfolding decide_recorded
  recorded_nan middle result row = >>=-none (require_audit row) _ λ id. rw (
      remember_nan middle session.id (text_field "from_account_id" "" args)
        (text_field "to_account_id" "" args) _ result.decision result.rule_id id
        host.decide_draws.remembered_at nan)

  now_nan : decide_now host db session actor args audit_id ≡ none
  unfolding decide_now
  now_nan =
      >>=-none
        (write_audit db (decide_audit session actor args audit_id (policy_now host db session args))
          host.decide_draws.audit_uuid host.decide_draws.audit_at)
        _ λ logged. recorded_nan logged.1 _ logged.0

  -- A question to the policy whose amount is no number throws, whatever else it holds: the denial
  -- is not recorded.
  pub tool_policy_decide-nan : tool_policy_decide host db session actor args audit_id ≡ none
  tool_policy_decide-nan = elim (policy_decide_branches host db session actor args audit_id) [
    | inl b ↦ b ∙ now_nan
    | inr (row, _, b) ↦ b ∙ replay_nan row
  ]
