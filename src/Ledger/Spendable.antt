-- ===== src/Ledger/Spendable.antt =====
-- packages/core/src/ledger.ts and policy.ts: the spendable funds of an account, available less
-- pending, as one sum over its entries, and how each write to the ledger changes them.
use agentic_bank.Common.{
  ℕ, ◌≡◌, sym, ap, ◌∙◌, Bool, true, not, ◌&&◌, Option, none, some, String, ℤ, pos, ◌+ℤ◌, ◌-ℤ◌,
  if◌then◌else◌, ◌===◌, string_eq, [], ◌∷◌, is_some, find-append, sum_by, sum_by-append,
  sum_by-cong_on, All-map, sum_by-sub, sum_by-cong, int_laws, arith,
}
use agentic_bank.Store.{Journal, Entry, Db}
use agentic_bank.Store.Types.{Side, JournalStatus, side_eq, journal_status_eq}
use agentic_bank.Ledger.Write.{FreshIds}
use agentic_bank.Ledger.Write.Effect.{
  RefersIn, written, with_journal, debit_of, credit_of, get_journal-with_journal,
}
use agentic_bank.Ledger.{
  get_journal, available_balance, pending_out, posted_credits, posted_debits, amount_if, has_status,
  journal_by_id,
}

abbrev pub spendable : Db → String → ℤ
spendable db a = available_balance db a -ℤ pending_out db a

abbrev pub signed : Entry → ℤ
signed e = if e.side === Side.credit then e.amount else pos 0 -ℤ e.amount

-- What one entry adds to the spendable funds of an account, by the status of its journal.
abbrev pub weight : String → Entry → Option Journal → ℤ
weight a e j =
    if e.account_id === a
    then if e.posted
      then signed e
      else if e.side === Side.debit && has_status JournalStatus.pending j
      then pos 0 -ℤ e.amount
      else pos 0
    else pos 0

-- The three sums behind the spendable funds, as their SELECT statements weigh one entry.
module _ (db : Db) (a : String) where
  abbrev credited : Entry → ℤ
  credited = amount_if λ e. e.account_id === a && e.side === Side.credit && e.posted

  abbrev debited : Entry → ℤ
  debited = amount_if λ e. e.account_id === a && e.side === Side.debit && e.posted

  abbrev held : Entry → ℤ
  held = amount_if λ e.
      e.account_id === a
      && e.side === Side.debit
      && not e.posted
      && has_status JournalStatus.pending (get_journal db e.journal_id)

  weight-eq :
      (e : Entry) → weight a e (get_journal db e.journal_id) ≡ credited e -ℤ debited e -ℤ held e
  weight-eq e = grind int_laws

  pub spendable-sum :
      spendable db a ≡ sum_by (λ e. weight a e (get_journal db e.journal_id)) db.entries
  unfolding available_balance pending_out posted_credits posted_debits
  spendable-sum = sym (
      sum_by-cong _ _ db.entries weight-eq
      ∙ sum_by-sub (λ e. credited e -ℤ debited e) held db.entries
      ∙ ap (λ s. s -ℤ sum_by held db.entries) (sum_by-sub credited debited db.entries))

-- The new pair: the source gives the amount away when the pair is posted or pending, and the
-- destination gets it when it is posted.
abbrev no_ids : FreshIds
no_ids = record { journal = ""; debit = ""; credit = "" }

abbrev pub written_weight : String → Journal → Bool → ℤ
written_weight a j posted =
    weight a (debit_of j posted 0 no_ids) (some j)
    +ℤ weight a (credit_of j posted 0 no_ids) (some j)

module _ (j : Journal) (posted : Bool) (ts : ℕ) (ids : FreshIds) (db : Db) where
  abbrev db' : Db
  db' = written j posted ts ids db

  pub get_journal-written_old :
      (i : String) → is_some (get_journal db i) ≡ true → get_journal db' i ≡ get_journal db i
  unfolding get_journal written
  get_journal-written_old i h =
      rw (find-append (journal_by_id i) db.journals (j ∷ [])) (ground arith)

  pub get_journal-written_new : get_journal db j.id ≡ none → get_journal db' j.id ≡ some j
  unfolding get_journal written with_journal
  get_journal-written_new new = get_journal-with_journal j db new

  abbrev weight' : String → Entry → ℤ
  weight' a e = weight a e (get_journal db' e.journal_id)

  old_weights :
      (a : String)
      → RefersIn db db.entries
      → sum_by (weight' a) db.entries
        ≡ sum_by (λ e. weight a e (get_journal db e.journal_id)) db.entries
  old_weights a refers = sum_by-cong_on _ _ db.entries (
      All-map _ _ db.entries (λ e h. ap (weight a e) (get_journal-written_old e.journal_id h))
        refers)

  pub sum-entries :
      (f : Entry → ℤ)
      → sum_by f db'.entries
        ≡ sum_by f db.entries +ℤ (f (debit_of j posted ts ids) +ℤ f (credit_of j posted ts ids))
  unfolding written sum_by
  sum-entries f = simp sum_by-append (omega int_laws)

  -- Writing a journal changes the spendable funds of an account by the weight of its pair.
  pub spendable-written :
      (a : String)
      → get_journal db j.id ≡ none
      → RefersIn db db.entries
      → spendable db' a ≡ spendable db a +ℤ written_weight a j posted
  spendable-written a new refers = rw (
    spendable-sum db' a,
    spendable-sum db a,
    sum-entries (weight' a),
    old_weights a refers,
    get_journal-written_new new,
  )
