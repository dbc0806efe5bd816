-- ===== src/Protocol/Evaluator/Outcomes.antt =====
-- packages/protocol/src/evaluator.ts: what the outcomes of an evaluation rest on, and the ladder of
-- packages/core/src/policy.ts beside it.
use agentic_bank.Common.{
  ◌+◌, ◌≤◌, ◌<◌, ◌≡◌, ◌≢◌, ◌↔◌, ◌⊎◌, inl, inr, refl, ap, sym, ◌∙◌, pos_part, some, String,
  string_eq, pos, ◌-ℤ◌, ◌<ℤ◌, int_laws, arith,
}
use agentic_bank.Store.{Db}
use agentic_bank.Store.Types.{AccountStatus, Decision, account_status_eq}
use agentic_bank.Ledger.{available_balance, pending_out}
use agentic_bank.Policy.{
  PolicyInput, decide, customer_outbound_on_seoul_day, daily_outbound_cap_krw,
  dual_control_amount_krw,
}
use agentic_bank.Policy.Approval.{Eligible, decide_outcomes, IsFunded, IsCapped}
use agentic_bank.Protocol.Evaluator.{
  Mandate, ProposedAction, PolicyArtifact, DecisionInputSnapshot, Outcome, allow, deny, step_up,
  evaluate_krw_transfer,
}

-- Open accounts of the mandate's customer on both sides, funds, and room under the cap.
pub record Covered (mandate : Mandate) (action : ProposedAction) (policy : PolicyArtifact)
    (snapshot : DecisionInputSnapshot) : Type 0 where
  pub from_open : snapshot.from_account_status ≡ AccountStatus.opened
  pub to_open : snapshot.to_account_status ≡ AccountStatus.opened
  pub sender : snapshot.from_owner_customer_id ≡ mandate.customer_id
  pub funded : action.transfer.amount ≤ snapshot.spendable_funds
  pub capped : snapshot.daily_spent + action.transfer.amount ≤ policy.daily_cap
  pub same_customer : snapshot.from_owner_customer_id ≡ snapshot.to_owner_customer_id

some_inj : {a b : String} → some a ≡ some b → a ≡ b
some_inj e = cc

deny_cases : (o : Outcome) → (o ≡ deny) ⊎ (o ≢ deny)
deny_cases allow = inr (λ e. cc)
deny_cases deny = inl refl
deny_cases step_up = inr (λ e. cc)

module _ (mandate : Mandate) (action : ProposedAction) (policy : PolicyArtifact)
    (snapshot : DecisionInputSnapshot) where
  covered :
      (evaluate_krw_transfer mandate action policy snapshot).outcome ≢ deny
      → Covered mandate action policy snapshot
  unfolding evaluate_krw_transfer
  covered h = record {
    from_open = ground arith;
    to_open = ground arith;
    sender = ground arith;
    funded = ground arith;
    capped = ground arith;
    same_customer = ground arith;
  }

  -- A transfer is allowed exactly when it is covered and below the step-up threshold, stepped up
  -- exactly when it is covered and reaches the threshold, and denied exactly when it is not covered.
  pub evaluate_outcomes :
      let outcome = (evaluate_krw_transfer mandate action policy snapshot).outcome in
      ((outcome ≡ allow) ↔ (
        Covered mandate action policy snapshot
        × (action.transfer.amount < policy.step_up_threshold)))
      × ((outcome ≡ step_up) ↔ (
          Covered mandate action policy snapshot
          × (policy.step_up_threshold ≤ action.transfer.amount)))
      × ((outcome ≡ deny) ↔ (¬ Covered mandate action policy snapshot))
  unfolding evaluate_krw_transfer
  evaluate_outcomes = (
    (λ h. (covered (λ d. cc (h, d)), ground arith), λ h. ground arith),
    (λ h. (covered (λ d. cc (h, d)), ground arith), λ h. ground arith),
    (
      λ h c. ground arith,
      λ uncovered.
          elim (deny_cases (evaluate_krw_transfer mandate action policy snapshot).outcome) [
            | inl d ↦ d
            | inr other ↦ absurd (uncovered (covered other))
          ],
    ),
  )

-- A snapshot of the bank as the policy of the core reads it, for the same transfer.
pub record Reads (db : Db) (input : PolicyInput) (p : Eligible db input) (mandate : Mandate)
    (action : ProposedAction) (policy : PolicyArtifact) (snapshot : DecisionInputSnapshot)
    : Type 0 where
  pub from_status : snapshot.from_account_status ≡ p.from.status
  pub to_status : snapshot.to_account_status ≡ p.to.status
  pub from_owner : p.from.customer_id ≡ some snapshot.from_owner_customer_id
  pub to_owner : p.to.customer_id ≡ some snapshot.to_owner_customer_id
  pub mandated : snapshot.from_owner_customer_id ≡ mandate.customer_id
  pub same_amount : p.amount ≡ pos action.transfer.amount
  pub spendable :
      pos snapshot.spendable_funds
      ≡ available_balance db input.from_account_id -ℤ pending_out db input.from_account_id
  pub spent : pos snapshot.daily_spent ≡ customer_outbound_on_seoul_day db p.customer_id input.now
  pub cap : pos policy.daily_cap ≡ daily_outbound_cap_krw
  pub threshold : pos policy.step_up_threshold ≡ dual_control_amount_krw

module _ (db : Db) (input : PolicyInput) (p : Eligible db input) (mandate : Mandate)
    (action : ProposedAction) (policy : PolicyArtifact) (snapshot : DecisionInputSnapshot)
    (reads : Reads db input p mandate action policy snapshot) where
  -- The three comparisons of amounts, in the numbers of the snapshot.
  funds_read : IsFunded db input p.amount ↔ (action.transfer.amount ≤ snapshot.spendable_funds)
  funds_read =
      rw (reads.same_amount) (rw⁻¹ reads.spendable (λ h. omega (arith, h), λ h. omega (arith, h)))

  cap_read :
      IsCapped db input p.customer_id p.amount
      ↔ (snapshot.daily_spent + action.transfer.amount ≤ policy.daily_cap)
  cap_read =
      let cap : policy.daily_cap ≡ 5_000_000 = ap pos_part reads.cap in
      rw (reads.same_amount, cap)
        (rw⁻¹ reads.spent (λ h. omega (int_laws, h), λ h. omega (int_laws, h)))

  threshold_read :
      (p.amount <ℤ dual_control_amount_krw) ↔ (action.transfer.amount < policy.step_up_threshold)
  threshold_read =
      let threshold : policy.step_up_threshold ≡ 1_000_000 = ap pos_part reads.threshold in
      rw (reads.same_amount, threshold) (λ h. omega (arith, h), λ h. omega (arith, h))

  same_customer_read :
      (some p.customer_id ≡ p.to.customer_id)
      ↔ (snapshot.from_owner_customer_id ≡ snapshot.to_owner_customer_id)
  same_customer_read = (
    λ h. some_inj (sym reads.from_owner ∙ p.permitted.has_owner ∙ h ∙ reads.to_owner),
    λ h. sym p.permitted.has_owner ∙ reads.from_owner ∙ ap some h ∙ sym reads.to_owner,
  )

  reads-Covered :
      IsFunded db input p.amount
      → IsCapped db input p.customer_id p.amount
      → some p.customer_id ≡ p.to.customer_id
      → Covered mandate action policy snapshot
  reads-Covered funded capped same = record {
    from_open = reads.from_status ∙ p.permitted.from_open;
    to_open = reads.to_status ∙ p.permitted.to_open;
    sender = reads.mandated;
    funded = funds_read.0 funded;
    capped = cap_read.0 capped;
    same_customer = same_customer_read.0 same;
  }

  -- On such a snapshot the evaluator allows a transfer exactly when the policy of the core does.
  pub evaluate_krw_transfer-agrees :
      ((evaluate_krw_transfer mandate action policy snapshot).outcome ≡ allow)
      ↔ ((decide db input).decision ≡ Decision.allow)
  evaluate_krw_transfer-agrees =
      let (evaluated, _, _) = evaluate_outcomes mandate action policy snapshot in
      let (_, _, _, decided) = decide_outcomes db input p in
      (
        λ h.
            let (c, small) = evaluated.0 h in
            decided.1 (
              funds_read.1 c.funded,
              cap_read.1 c.capped,
              same_customer_read.1 c.same_customer,
              threshold_read.1 small,
            ),
        λ h.
            let (funded, capped, same, small) = decided.0 h in
            evaluated.1 (reads-Covered funded capped same, threshold_read.0 small),
      )
