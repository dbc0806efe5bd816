-- ===== src/Transfers/Solvency.antt =====
-- The funds of the customer accounts (packages/core/src/ledger.ts and policy.ts) over the steps of
-- the ledger.
pub mod Steps
use agentic_bank.Common.{
  ℕ, ◌≡◌, ◌≢◌, ◌⊎◌, inl, inr, refl, sym, ap, ◌∙◌, Bool, true, false, not, ◌&&◌, Option, none, some,
  String, String_discrete, ℤ, pos, ◌+ℤ◌, ◌-ℤ◌, ◌≤ℤ◌, ◌<ℤ◌, if◌then◌else◌, ◌===◌, string_eq, int,
  int_laws, add_nonneg, take_nonneg, arith, Option-cases, All, All-append, All-map, is_some, sum_by,
  sum_by-nonneg, All-update, List, trim,
}
use agentic_bank.Store.{Account, Journal, Entry, Db}
use agentic_bank.Store.Types.{Side, JournalStatus, Product, Decision, side_eq}
use agentic_bank.Ledger.{get_account, get_journal}
use agentic_bank.Ledger.Spendable.{
  spendable, spendable-written, written_weight, get_journal-written_old, get_journal-written_new,
}
use agentic_bank.Ledger.Write.{TransferJournalInput, FreshIds, status_for, journal_row}
use agentic_bank.Ledger.Write.Effect.{IsFresh, RefersIn, written, is_posted}
use agentic_bank.Ledger.Write.Refusals.{Accepted}
use agentic_bank.Ledger.Write.Idempotence.{write_cases, after_first}
use agentic_bank.Ledger.Clear.{post_journal, deny_journal}
use agentic_bank.Ledger.Clear.Effect.{
  is_some-post, is_some-deny, waiting, spendable-post, spendable-deny,
}
use agentic_bank.Policy.{PolicyInput, decide}
use agentic_bank.Policy.Approval.{Eligible, decide_cases, decide_outcomes}
use agentic_bank.Transfers.References.{RefersIn-written, RefersIn-post, RefersIn-deny}
use agentic_bank.Transfers.{
  Follows, LedgerStep, transfers, approves, rejects, changes_status, LedgerReach, here, next,
}

pub record Solvent (db : Db) : Type 0 where
  -- Every entry belongs to a journal of the table and has an amount of zero or more.
  pub refers : RefersIn db db.entries
  pub amounts : All (λ e. pos 0 ≤ℤ e.amount) db.entries
  -- The pending funds of a customer account are covered by its available ones.
  pub covered :
      (id : String) (a : Account)
      → get_account db id ≡ some a
      → a.product ≢ Product.house
      → pos 0 ≤ℤ spendable db id

-- The new pair takes at most its amount from the source, nothing from another account, and
-- nothing at all when it is denied.
module _ (a : String) (j : Journal) (posted : Bool) (nonneg : pos 0 ≤ℤ j.amount) where
  weight-source : pos 0 -ℤ j.amount ≤ℤ written_weight a j posted
  weight-source = grind int_laws

  weight-other : a ≢ j.from_account_id → pos 0 ≤ℤ written_weight a j posted
  weight-other h = grind int_laws

  weight-denied :
      posted ≡ false → j.status ≡ JournalStatus.denied → pos 0 ≤ℤ written_weight a j posted
  weight-denied h k = grind int_laws

-- What a journal write that follows the policy rests on.
module _ (db : Db) (ask : PolicyInput) (input : TransferJournalInput) (key : String)
    (follows : Follows db ask input) (accepted : Accepted db key input) where
  eligible : Eligible db ask
  eligible = elim (decide_cases db ask) [
    | inl d ↦ absurd (ground (arith, follows.decided, accepted.decided, accepted.journalable, d))
    | inr (p, _) ↦ p
  ]

  eligible_amount : eligible.amount ≡ input.amount
  eligible_amount = cc (eligible.whole, follows.same_amount)

  amount_nonneg : pos 0 ≤ℤ input.amount
  amount_nonneg = rw (← eligible_amount) (omega (arith, eligible.positive))

  spendable_covers :
      eligible.amount ≤ℤ spendable db ask.from_account_id
      → input.amount ≤ℤ spendable db input.from_account_id
  spendable_covers h = rw (follows.same_from, ← eligible_amount) h

  funded_when :
      (d : Decision)
      → (decide db ask).decision ≡ d
      → ((is_posted input ≡ false) × (status_for input.decision ≡ JournalStatus.denied))
        ⊎ (input.amount ≤ℤ spendable db input.from_account_id)
  unfolding status_for
  funded_when Decision.allow e = inr (spendable_covers ((decide_outcomes db ask eligible).3.0 e).0)
  funded_when Decision.dual_control e =
      inr (spendable_covers ((decide_outcomes db ask eligible).2.0 e).0)
  funded_when _ e = inl (ground (arith, follows.decided, e))

  -- Either nothing is applied or held, or the funds cover the amount.
  funded :
      ((is_posted input ≡ false) × (status_for input.decision ≡ JournalStatus.denied))
      ⊎ (input.amount ≤ℤ spendable db input.from_account_id)
  funded = funded_when (decide db ask).decision refl

amounts-written :
    (j : Journal) (posted : Bool) (ts : ℕ) (ids : FreshIds) (db : Db)
    → pos 0 ≤ℤ j.amount
    → All (λ e. pos 0 ≤ℤ e.amount) db.entries
    → All (λ e. pos 0 ≤ℤ e.amount) (written j posted ts ids db).entries
unfolding written
amounts-written j posted ts ids db h old =
    All-append _ _ _ (All-append _ db.entries _ old (h, tt)) (h, tt)

module _ (db : Db) (ask : PolicyInput) (input : TransferJournalInput) (ids : FreshIds) (ts : ℕ)
    (follows : Follows db ask input)
    (accepted : Accepted db (trim input.idempotency_key) input) where
  abbrev new_row : Journal
  new_row = journal_row ids.journal (trim input.idempotency_key) input ts

  new_amount : pos 0 ≤ℤ new_row.amount
  unfolding journal_row
  new_amount = amount_nonneg db ask input (trim input.idempotency_key) follows accepted

  covered_after :
      (id : String)
      → pos 0 ≤ℤ spendable db id
      → pos 0 ≤ℤ spendable db id +ℤ written_weight id new_row (is_posted input)
  unfolding journal_row
  covered_after id h = elim (String_discrete id input.from_account_id) [
    | no other ↦ add_nonneg _ _ h (weight-other id new_row (is_posted input) new_amount other)
    | yes source ↦ elim (funded db ask input (trim input.idempotency_key) follows accepted) [
      | inl (unposted, is_denied) ↦
          add_nonneg _ _ h
            (weight-denied id new_row (is_posted input) new_amount unposted is_denied)
      | inr enough ↦
          take_nonneg _ _ input.amount (rw source enough)
            (weight-source id new_row (is_posted input) new_amount)
    ]
  ]

  pub after_first-Solvent : IsFresh db ids → Solvent db → Solvent (after_first db input ids ts)
  unfolding written journal_row get_account
  after_first-Solvent fresh s = record {
    refers = RefersIn-written new_row (is_posted input) ts ids db fresh.new_journal s.refers;
    amounts = amounts-written new_row (is_posted input) ts ids db new_amount s.amounts;
    covered = λ id a known customer.
        rw (spendable-written new_row (is_posted input) ts ids db id fresh.new_journal s.refers)
          (covered_after id (s.covered id a known customer));
  }

waiting_nonneg :
    (side : Side) (id a : String) (es : List Entry)
    → All (λ e. pos 0 ≤ℤ e.amount) es
    → pos 0 ≤ℤ sum_by (waiting side id a) es
waiting_nonneg side id a es h =
    sum_by-nonneg (waiting side id a) es (All-map _ _ es (λ e k. ground arith) h)

module _ (db : Db) (id : String) (j : Journal) where
  pub post-Solvent :
      (ts : ℕ)
      → get_journal db id ≡ some j
      → j.status ≡ JournalStatus.pending
      → Solvent db
      → Solvent (post_journal ts id db)
  unfolding post_journal get_account
  post-Solvent ts known pending s = record {
    refers = RefersIn-post ts id db j s.refers;
    amounts = All-update _ _ _ db.entries (λ e h. h) s.amounts;
    covered = λ a acc k customer. rw (spendable-post ts id a db j known pending) (
        add_nonneg _ _ (s.covered a acc k customer)
          (waiting_nonneg Side.credit id a db.entries s.amounts));
  }

  pub deny-Solvent :
      get_journal db id ≡ some j
      → j.status ≡ JournalStatus.pending
      → Solvent db
      → Solvent (deny_journal id db)
  unfolding deny_journal get_account
  deny-Solvent known pending s = record {
    refers = RefersIn-deny id db j s.refers;
    amounts = s.amounts;
    covered = λ a acc k customer. rw (spendable-deny id a db j known pending) (
        add_nonneg _ _ (s.covered a acc k customer)
          (waiting_nonneg Side.debit id a db.entries s.amounts));
  }
