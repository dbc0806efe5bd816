-- ===== src/Agents/Refinement/Transfer.antt =====
-- packages/core/src/agents.ts, `toolTransfer` of a session that remembers no decision.
use agentic_bank.Common.{
  ◌≡◌, ◌≢◌, ◌⊎◌, inl, inr, sym, ap, ◌∙◌, none, some, Option, String, String_discrete, arith,
  >>=-some, Option-cases, string_eq, ◌>>=◌, ===_of_eq,
}
use agentic_bank.Store.{AuditRow, Session, ToolResult, Db}
use agentic_bank.Store.Args.{Json, Fields, end, field, get_field, set_field}
use agentic_bank.Store.Types.{Actor, Action, Decision}
use agentic_bank.Audit.{find_audit_by_idempotency}
use agentic_bank.Ledger.{get_journal_by_idempotency}
use agentic_bank.Ledger.Write.Effect.{IsFresh}
use agentic_bank.Operator.{require_audit}
use agentic_bank.Policy.{PolicyInput, decide}
use agentic_bank.Transfers.{LedgerReach, elsewhere, here, next}
use agentic_bank.Agents.{Host, matching_policy, remember_policy, append_trace}
use agentic_bank.Agents.Args.{text_field, number_field}
use agentic_bank.Agents.Decide.{
  tool_policy_decide, decide_replay, policy_now, earlier_denial, decide_replayed,
}
use agentic_bank.Agents.Transfer.{
  TransferAsk, Inbound, transfer_ask, inbound_decision, ask_policy, asked_inbound,
  transfer_denied_before,
}
use agentic_bank.Agents.Transfer.Write.{tool_transfer, transfer_new, transfer_decided}
use agentic_bank.Agents.Untouched.{Untouched, Untouched-refl, traced-Keeps}
use agentic_bank.Agents.Untouched.Execution.{tool_transfer-replays}
use agentic_bank.Agents.Untouched.Tools.{tool_policy_decide-Keeps, policy_decide_branches}
use agentic_bank.Agents.Refinement.{Untouched-beside, decide_now-decision, decided-LedgerReach}

get_field-set_field :
    (k key : String) (v : Json) (fs : Fields)
    → key ≢ k
    → get_field k (set_field key v fs) ≡ get_field k fs
unfolding get_field set_field
get_field-set_field k key v end ne = ground arith
get_field-set_field k key v (field j w fs) ne =
    let rest = get_field-set_field k key v fs ne in ground arith

pub moved : {db d : Db} → Untouched db d → LedgerReach db d
moved {db} {d} u = rw (Untouched-beside u) (next here (elsewhere d))

asked_steps :
    (host : Host) (db : Db) {middle : Db} (session : Session) (actor : Actor) (ask : TransferAsk)
    (inbound : Inbound)
    → matching_policy db session.id ask.from ask.to ask.amount ≡ none
    → inbound_decision host db session actor ask ≡ some (inbound, middle)
    → (decided : ToolResult) × (tool_policy_decide host db session actor ask.args none
        ≡ some (decided, middle))
      × (inbound.decision ≡ decided.decision)
unfolding ask_policy asked_inbound inbound_decision
asked_steps host db {middle} session actor ask inbound forgotten e =
    let asks : inbound_decision host db session actor ask ≡ ask_policy host db session actor ask =
      ground (arith, forgotten) in
    let ((decided, after), t, last) =
      >>=-some (tool_policy_decide host db session actor ask.args none) _ (sym asks ∙ e) in
    let same : after ≡ middle = cc last in
    let shape : inbound ≡ asked_inbound decided = cc last in
    (decided, rw (sym same) t, ap (λ (x : Inbound). x.decision) shape)

replay-decision :
    (host : Host) (db : Db) {after : Db} (session : Session) (args : Fields) (row : AuditRow)
    (answer : ToolResult)
    → decide_replay host db session args row ≡ some (answer, after)
    → answer.decision ≡ row.decision
unfolding decide_replay
replay-decision host db session args row answer e =
    let (remembered, _, rest) =
      >>=-some
        (remember_policy db session.id (text_field "from_account_id" "" args)
          (text_field "to_account_id" "" args) (number_field host.number_of "amount" args)
          row.decision row.rule_id row.audit_id host.decide_draws.remembered_at)
        _ e in
    let (id, _, rest') = >>=-some (require_audit row) _ rest in
    let (traced, _, last) =
      >>=-some
        (append_trace remembered session Action.policy_decide args (decide_replayed row id)
          host.decide_draws.trace_uuid host.decide_draws.trace_at)
        _ rest' in
    let same : answer ≡ decide_replayed row id = cc last in ap (λ (t : ToolResult). t.decision) same

policy-decision :
    (host : Host) (db : Db) {after : Db} (session : Session) (actor : Actor) (args : Fields)
    (answer : ToolResult)
    → tool_policy_decide host db session actor args none ≡ some (answer, after)
    → (answer.decision ≡ (policy_now host db session args).decision)
      ⊎ (answer.decision ≡ Decision.deny_policy)
policy-decision host db session actor args answer e =
    elim (policy_decide_branches host db session actor args none) [
      | inl b ↦ inl (decide_now-decision host db session actor args none answer (sym b ∙ e))
      | inr (row, denied, b) ↦
          inr (replay-decision host db session args row answer (sym b ∙ e) ∙ denied)
    ]

denied_before-Untouched :
    (host : Host) (db : Db) {after : Db} (session : Session) (ask : TransferAsk) (prior : AuditRow)
    (decide_row : Option AuditRow) (r : ToolResult)
    → transfer_denied_before host db session ask prior decide_row ≡ some (r, after)
    → Untouched db after
unfolding transfer_denied_before
denied_before-Untouched host db {after} session ask prior decide_row r e =
    let (id, _, rest) = >>=-some (require_audit prior) _ e in
    traced-Keeps session Action.transfer ask.args _ host.trace_uuid host.trace_at
      (Untouched-refl db) r after rest

-- Not the key that a transfer sets in its arguments.
text_field-set_key :
    (k : String) (v : Json) (args : Fields)
    → "idempotency_key" ≢ k
    → text_field k "" (set_field "idempotency_key" v args) ≡ text_field k "" args
unfolding text_field
text_field-set_key k v args ne = rw (get_field-set_field k "idempotency_key" v args ne)

module _ (host : Host) (db : Db) (session : Session) (actor : Actor) (args : Fields)
    (audit_id : Option String) where
  abbrev ask : TransferAsk
  ask = transfer_ask host session args

  abbrev asked : PolicyInput
  asked = record {
    from_account_id = text_field "from_account_id" "" ask.args;
    to_account_id = text_field "to_account_id" "" ask.args;
    amount = number_field host.number_of "amount" ask.args;
    actor_customer_id = some session.customer_id;
    now = host.decide_draws.policy_at;
  }

  same_from : asked.from_account_id ≡ ask.from
  unfolding transfer_ask String_discrete
  same_from =
      text_field-set_key "from_account_id" _ args
        (λ e. cc (===_of_eq ⦃e = string_eq⦄ "idempotency_key" "from_account_id" e))

  same_to : asked.to_account_id ≡ ask.to
  unfolding transfer_ask String_discrete
  same_to =
      text_field-set_key "to_account_id" _ args
        (λ e. cc (===_of_eq ⦃e = string_eq⦄ "idempotency_key" "to_account_id" e))

  same_amount : asked.amount ≡ ask.amount
  unfolding transfer_ask String_discrete number_field
  same_amount = rw (
      get_field-set_field "amount" "idempotency_key" _ args
        (λ e. cc (===_of_eq ⦃e = string_eq⦄ "idempotency_key" "amount" e)))

  new-LedgerReach :
      {after : Db} (r : ToolResult)
      → IsFresh db host.journal_uuids
      → matching_policy db session.id ask.from ask.to ask.amount ≡ none
      → transfer_new host db session actor ask audit_id ≡ some (r, after)
      → LedgerReach db after
  unfolding transfer_new policy_now
  new-LedgerReach {after} r fresh forgotten e =
      elim (Option-cases
        (earlier_denial host db Action.transfer ask.key ask.from ask.to ask.amount)) [
          | inr (prior, found) ↦ moved (before_Untouched prior (ground (arith, found)))
          | inl nothing ↦
              let run : (inbound_decision host db session actor ask >>= λ decided.
              transfer_decided host decided.1 session actor ask audit_id decided.0)
                  ≡ some (r, after) =
                ground (arith, nothing) in
              let ((inbound, middle), i, rest) =
                >>=-some (inbound_decision host db session actor ask) _ run in
              let (decided, t, same) = asked_steps host db session actor ask inbound forgotten i in
              decided-LedgerReach host db middle session actor ask audit_id inbound asked r
                (tool_policy_decide-Keeps host db session actor ask.args none decided middle t)
                fresh
                (by_policy inbound decided same
                  (policy-decision host db session actor ask.args decided t))
                same_from same_to same_amount rest
        ]
    where
      before_Untouched :
          (prior : AuditRow)
          → transfer_denied_before host db session ask prior (
              find_audit_by_idempotency db Action.policy_decide ask.key (some Decision.deny_policy))
            ≡ some (r, after)
          → Untouched db after
      before_Untouched prior h = denied_before-Untouched host db session ask prior _ r h

      by_policy :
          (inbound : Inbound) (decided : ToolResult)
          → inbound.decision ≡ decided.decision
          → (decided.decision ≡ (decide db asked).decision)
            ⊎ (decided.decision ≡ Decision.deny_policy)
          → (inbound.decision ≡ (decide db asked).decision)
            ⊎ (inbound.decision ≡ Decision.deny_policy)
      by_policy inbound decided same (inl d) = inl (same ∙ d)
      by_policy inbound decided same (inr d) = inr (same ∙ d)

  -- Whatever `toolTransfer` answers in a session that remembers no decision for this transfer, a
  -- replay, a conflict, a denial or a written journal, the database it leaves is reached from the
  -- one it was given by the steps of the ledger, when the ids of the new journal and its entries are not in use.
  pub tool_transfer-LedgerReach :
      {after : Db} (r : ToolResult)
      → IsFresh db host.journal_uuids
      → matching_policy db session.id ask.from ask.to ask.amount ≡ none
      → tool_transfer host db session actor args audit_id ≡ some (r, after)
      → LedgerReach db after
  unfolding tool_transfer
  tool_transfer-LedgerReach {after} r fresh forgotten e =
      elim (Option-cases (get_journal_by_idempotency db ask.key)) [
        | inr (existing, known) ↦
            moved
              (tool_transfer-replays host db session actor args audit_id existing r after known e).0
        | inl unused ↦ new-LedgerReach r fresh forgotten (ground (arith, unused))
      ]
