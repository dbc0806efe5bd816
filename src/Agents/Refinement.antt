-- ===== src/Agents/Refinement.antt =====
-- packages/core/src/agents.ts, `toolTransfer`, as a history of the ledger.
pub mod Transfer
use agentic_bank.Common.{
  ◌≡◌, ◌≢◌, ◌⊎◌, inl, inr, refl, sym, ap, ◌∙◌, none, some, Option, String, ℤ, Number, int, non_int,
  arith, >>=-some, Option-cases, string_eq, ◌>>=◌, ===_of_ne,
}
use agentic_bank.Store.{AuditRow, Journal, Session, ToolResult, PolicyResult, Db}
use agentic_bank.Store.Args.{Fields}
use agentic_bank.Store.Types.{Actor, Action, Decision, RuleId, decision_eq}
use agentic_bank.Audit.{write_audit}
use agentic_bank.Ledger.{
  get_account, available_balance, pending_out, customer_outbound, get_journal,
}
use agentic_bank.Ledger.Write.{JournalWriteResult, JournalWriteErr, ok, err, write_transfer_journal}
use agentic_bank.Operator.{require_audit}
use agentic_bank.Policy.{
  PolicyInput, decide, decide_known, decide_funds, customer_outbound_on_seoul_day,
}
use agentic_bank.Ledger.Write.{known}
use agentic_bank.Ledger.Write.Effect.{IsFresh}
use agentic_bank.Transfers.{beside, Follows, LedgerReach, transfers, elsewhere, here, next}
use agentic_bank.Agents.{Host, remember_policy, append_trace, link_decide_audit}
use agentic_bank.Agents.Args.{text_field, number_field}
use agentic_bank.Agents.Decide.{
  decide_now, decide_recorded, decide_answer, decide_audit, policy_now,
}
use agentic_bank.Agents.Transfer.{TransferAsk, Inbound}
use agentic_bank.Agents.Transfer.Write.{
  transfer_write, transfer_refused, transfer_written, journal_input, transfer_decided,
  transfer_denied, transfer_undecided,
}
use agentic_bank.Agents.Untouched.{
  Untouched, Untouched-refl, Untouched-trans, logged-Keeps, traced-Keeps,
}

pub Untouched-beside : {db after : Db} → Untouched db after → after ≡ beside db after
Untouched-beside {db} {after} u = λ i. record after {
  accounts = u.same_accounts i;
  journals = u.same_journals i;
  entries = u.same_entries i;
}

decide-beside :
    (db rest : Db) (input : PolicyInput) → decide (beside db rest) input ≡ decide db input
unfolding decide decide_known decide_funds get_account available_balance pending_out
    customer_outbound_on_seoul_day customer_outbound get_journal
decide-beside db rest input = refl

pub decide_now-decision :
    (host : Host) (db : Db) {after : Db} (session : Session) (actor : Actor) (args : Fields)
    (audit_id : Option String) (answer : ToolResult)
    → decide_now host db session actor args audit_id ≡ some (answer, after)
    → answer.decision ≡ (policy_now host db session args).decision
unfolding decide_now decide_recorded
decide_now-decision host db session actor args audit_id answer e =
    let result = policy_now host db session args in
    let ((row, audited), _, rest) =
      >>=-some
        (write_audit db (decide_audit session actor args audit_id result)
          host.decide_draws.audit_uuid host.decide_draws.audit_at)
        _ e in
    let (id, _, rest') = >>=-some (require_audit row) _ rest in
    let (remembered, _, rest'') =
      >>=-some
        (remember_policy audited session.id (text_field "from_account_id" "" args)
          (text_field "to_account_id" "" args) (number_field host.number_of "amount" args)
          result.decision result.rule_id id host.decide_draws.remembered_at)
        _ rest' in
    let (traced, _, last) =
      >>=-some
        (append_trace remembered session Action.policy_decide args (decide_answer result row id)
          host.decide_draws.trace_uuid host.decide_draws.trace_at)
        _ rest'' in
    let same : answer ≡ decide_answer result row id = cc last in
    ap (λ (t : ToolResult). t.decision) same

refused-Untouched :
    (host : Host) (db : Db) {after : Db} (session : Session) (actor : Actor) (ask : TransferAsk)
    (audit_id : Option String) (inbound : Inbound) (e : JournalWriteErr) (r : ToolResult)
    → transfer_refused host db session actor ask audit_id inbound e ≡ some (r, after)
    → Untouched db after
unfolding transfer_refused
refused-Untouched host db {after} session actor ask audit_id inbound e r h =
    logged-Keeps host session _ _ Action.transfer ask.args (Untouched-refl db) r after h

written-Untouched :
    (host : Host) (db : Db) {after : Db} (session : Session) (actor : Actor) (ask : TransferAsk)
    (audit_id : Option String) (inbound : Inbound) (j : Journal) (r : ToolResult)
    → transfer_written host db session actor ask audit_id inbound j ≡ some (r, after)
    → Untouched db after
unfolding transfer_written link_decide_audit
written-Untouched host db {after} session actor ask audit_id inbound j r h =
    logged-Keeps host session _ _ Action.transfer ask.args
      (record { same_accounts = refl; same_journals = refl; same_entries = refl }) r after h

-- What follows the journal write leaves the ledger as the write has left it.
rest-Untouched :
    (host : Host) (session : Session) (actor : Actor) (ask : TransferAsk) (audit_id : Option String)
    (inbound : Inbound) (result : JournalWriteResult) (db : Db) {after : Db} (r : ToolResult)
    → (elim result [
      | err e ↦ transfer_refused host db session actor ask audit_id inbound e
      | ok journal _ ↦ transfer_written host db session actor ask audit_id inbound journal
    ])
      ≡ some (r, after)
    → Untouched db after
rest-Untouched host session actor ask audit_id inbound (err e) db r h =
    refused-Untouched host db session actor ask audit_id inbound e r h
rest-Untouched host session actor ask audit_id inbound (ok j b) db r h =
    written-Untouched host db session actor ask audit_id inbound j r h

-- The write that a transfer with a decision makes.
abbrev Writes : Host → Actor → TransferAsk → Inbound → Db → Db → Type 0
Writes host actor ask inbound db after =
    (amount : ℤ) × (result : JournalWriteResult) × (wrote : Db) × (ask.amount ≡ int amount)
    × (write_transfer_journal db (journal_input actor ask inbound amount) host.journal_uuids
          host.journal_at
        ≡ some (result, wrote))
    × Untouched wrote after

write_steps :
    (host : Host) (db : Db) {after : Db} (session : Session) (actor : Actor) (ask : TransferAsk)
    (audit_id : Option String) (inbound : Inbound) (r : ToolResult) (n : Number)
    → ask.amount ≡ n
    → transfer_write host db session actor ask audit_id inbound ≡ some (r, after)
    → Writes host actor ask inbound db after
unfolding transfer_write
write_steps host db session actor ask audit_id inbound r (non_int s) k e = absurd (ground arith)
write_steps host db {after} session actor ask audit_id inbound r (int amount) k e =
    let ((result, wrote), w, rest) =
      >>=-some
        (write_transfer_journal db (journal_input actor ask inbound amount) host.journal_uuids
          host.journal_at)
        _ (chosen ∙ e) in
    (
      amount,
      result,
      wrote,
      k,
      w,
      rest-Untouched host session actor ask audit_id inbound result wrote r rest,
    )
  where
    chosen :
        (write_transfer_journal db
            (journal_input actor ask inbound amount)
            host.journal_uuids
            host.journal_at
          >>= λ written. elim written.0 [
            | err e ↦ transfer_refused host written.1 session actor ask audit_id inbound e
            | ok journal _ ↦
                transfer_written host written.1 session actor ask audit_id inbound journal
          ])
        ≡ transfer_write host db session actor ask audit_id inbound
    chosen = ground arith

denied-Untouched :
    (host : Host) (db : Db) {after : Db} (session : Session) (ask : TransferAsk) (inbound : Inbound)
    (r : ToolResult)
    → transfer_denied host db session ask inbound ≡ some (r, after)
    → Untouched db after
unfolding transfer_denied
denied-Untouched host db {after} session ask inbound r e =
    traced-Keeps session Action.transfer ask.args _ host.trace_uuid host.trace_at
      (Untouched-refl db) r after e

undecided-Untouched :
    (host : Host) (db : Db) {after : Db} (session : Session) (actor : Actor) (ask : TransferAsk)
    (audit_id : Option String) (r : ToolResult)
    → transfer_undecided host db session actor ask audit_id ≡ some (r, after)
    → Untouched db after
unfolding transfer_undecided
undecided-Untouched host db {after} session actor ask audit_id r e =
    logged-Keeps host session _ _ Action.transfer ask.args (Untouched-refl db) r after e

decided_branches :
    (host : Host) (db : Db) (session : Session) (actor : Actor) (ask : TransferAsk)
    (audit_id : Option String) (inbound : Inbound)
    → (transfer_decided host db session actor ask audit_id inbound
        ≡ transfer_undecided host db session actor ask audit_id)
      ⊎ ((transfer_decided host db session actor ask audit_id inbound
            ≡ transfer_denied host db session ask inbound)
          ⊎ ((inbound.decision ≢ Decision.deny_policy)
              × (transfer_decided host db session actor ask audit_id inbound
                  ≡ transfer_write host db session actor ask audit_id inbound)))
unfolding transfer_decided
decided_branches host db session actor ask audit_id inbound = ground arith

-- From a state that differs from `db` in the other tables only, a transfer on the policy's decision
-- goes on as a history of the ledger.
module _ (host : Host) (db middle : Db) (session : Session) (actor : Actor) (ask : TransferAsk)
    (audit_id : Option String) (inbound : Inbound) (asked : PolicyInput) where
  fresh_beside :
      Untouched db middle → IsFresh db host.journal_uuids → IsFresh middle host.journal_uuids
  unfolding get_journal
  fresh_beside u fresh = record {
    new_journal = rw u.same_journals fresh.new_journal;
    new_debit = rw u.same_entries fresh.new_debit;
    new_credit = rw u.same_entries fresh.new_credit;
    distinct = fresh.distinct;
  }

  pub decided-LedgerReach :
      {after : Db} (r : ToolResult)
      → Untouched db middle
      → IsFresh db host.journal_uuids
      → (inbound.decision ≡ (decide db asked).decision) ⊎ (inbound.decision ≡ Decision.deny_policy)
      → asked.from_account_id ≡ ask.from
      → asked.to_account_id ≡ ask.to
      → asked.amount ≡ ask.amount
      → transfer_decided host middle session actor ask audit_id inbound ≡ some (r, after)
      → LedgerReach db after
  unfolding journal_input
  decided-LedgerReach {after} r u fresh decided from to same_amount e =
      elim (decided_branches host middle session actor ask audit_id inbound) [
        | inl b ↦ moved (
            Untouched-trans u
              (undecided-Untouched host middle session actor ask audit_id r (sym b ∙ e)))
        | inr (inl b) ↦
            moved
              (Untouched-trans u (denied-Untouched host middle session ask inbound r (sym b ∙ e)))
        | inr (inr (ne, b)) ↦
            let (amount, result, wrote, whole, w, u') =
              write_steps host middle session actor ask audit_id inbound r ask.amount refl
                (sym b ∙ e) in
            let reached : LedgerReach db middle = moved u in
            let follows : Follows middle asked (journal_input actor ask inbound amount) = record {
              decided =
                  ap known (
                    by_policy ne decided ∙ sym (ap (λ (p : PolicyResult). p.decision) same_policy));
              same_from = sym from;
              same_to = sym to;
              same_amount = same_amount ∙ whole;
            } in
            let step : LedgerReach db wrote = next reached (
              transfers asked (journal_input actor ask inbound amount) host.journal_uuids
                host.journal_at result follows (fresh_beside u fresh) w) in
            rw (Untouched-beside u') (next step (elsewhere after))
      ]
    where
      moved : {d : Db} → Untouched db d → LedgerReach db d
      moved {d} v = rw (Untouched-beside v) (next here (elsewhere d))

      same_policy : decide middle asked ≡ decide db asked
      same_policy = ap (λ d. decide d asked) (Untouched-beside u) ∙ decide-beside db middle asked

      by_policy :
          inbound.decision ≢ Decision.deny_policy
          → (inbound.decision ≡ (decide db asked).decision)
            ⊎ (inbound.decision ≡ Decision.deny_policy)
          → inbound.decision ≡ (decide db asked).decision
      by_policy ne (inl d) = d
      by_policy ne (inr d) = absurd (ne d)
