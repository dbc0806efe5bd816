-- ===== src/Tests/Ledgers.antt =====
-- The ledger's theorems at the sample bank: a transfer is written, waits and is approved.
use agentic_bank.Common.{
  ◌≡◌, ◌⊎◌, inl, inr, refl, sym, none, some, String_discrete, pos, ◌≤ℤ◌, arith, All, find,
  Option_discrete, trim, find_holds, sum_by, false, true, ◌↔◌, if◌then◌else◌, string_eq, ap, ◌+ℤ◌,
  ◌-ℤ◌, is_positive_int_won,
}
use agentic_bank.Store.{Journal, Db}
use agentic_bank.Store.Types.{
  JournalStatus, Product, Side_discrete, Product_discrete, JournalStatus_discrete,
  AccountStatus_discrete, pending, Decision,
}
use agentic_bank.Ledger.{
  get_account, get_journal, by_id, available_balance, posted_entry_sum, available_sum_all,
  get_journal_by_idempotency, pending_out, customer_outbound,
}
use agentic_bank.Ledger.Spendable.{spendable}
use agentic_bank.Ledger.Write.{
  write_transfer_journal, known, ok, conflict, refusal, same_transfer_body, journal_row, status_for,
}
use agentic_bank.Ledger.Write.Idempotence.{after_first, write_first, write_again, row_of as new_row}
use agentic_bank.Ledger.Write.Effect.{IsFresh, written}
use agentic_bank.Ledger.Clear.{
  apply_pending_journal, reject_pending_journal, post_journal, mark_posted,
}
use agentic_bank.Ledger.Clear.Lifecycle.{apply_pending-Clears}
use agentic_bank.Ledger.Clear.Rows.{
  Clearing, IsPosting, IsDenying, apply_pending_journal-posts, reject_pending_journal-denies,
}
use agentic_bank.Ledger.Write.Refusals.{Accepted, refusal-Accepted}
use agentic_bank.Time.{seoul_day_utc_range}
use agentic_bank.Policy.{decide, decide_known, decide_funds, customer_outbound_on_seoul_day}
use agentic_bank.Transfers.{LedgerReach, transfers, approves, here, next, Follows}
use agentic_bank.Transfers.Solvency.{Solvent}
use agentic_bank.Transfers.Solvency.Steps.{LedgerReach-Solvent}
use agentic_bank.Transfers.Conservation.Steps.{Sound, LedgerReach-conserves}
use agentic_bank.Transfers.History.{Evolves, LedgerReach-Evolves}
use agentic_bank.Tests.{
  bank, alice, bob, ask, order, new_ids, find_All, texts_differ, waiting_journal, decided, opening,
}

bank_covered : All (λ a. (a.product ≡ Product.house) ⊎ (pos 0 ≤ℤ spendable bank a.id)) bank.accounts
unfolding available_balance pending_out String_discrete sum_by Side_discrete get_journal find
    JournalStatus_discrete ◌-ℤ◌ ◌+ℤ◌
bank_covered = (inl refl, (inr (omega arith), (inr (omega arith), (inr (omega arith), tt))))

bank-Solvent : Solvent bank
unfolding get_journal find String_discrete get_account
bank-Solvent = record {
  refers = (refl, (refl, (refl, (refl, tt))));
  amounts = (omega arith, (omega arith, (omega arith, (omega arith, tt))));
  covered = λ id a known customer.
      let same : a.id ≡ id = ground (arith, find_holds (by_id id) bank.accounts a known) in
      elim (find_All (λ a. (a.product ≡ Product.house) ⊎ (pos 0 ≤ℤ spendable bank a.id)) (by_id id)
        bank.accounts a bank_covered known) [
          | inl house ↦ absurd (customer house)
          | inr funds ↦ rw (sym same) funds
        ];
}

decided_now : (decide bank ask).decision ≡ Decision.dual_control
unfolding decide decide_known decide_funds is_positive_int_won get_account find String_discrete
    available_balance pending_out sum_by Side_discrete get_journal JournalStatus_discrete
    Product_discrete AccountStatus_discrete Option_discrete customer_outbound_on_seoul_day
    customer_outbound seoul_day_utc_range ◌+ℤ◌ ◌-ℤ◌
decided_now = refl

follows : Follows bank ask order
follows = record {
  decided = ap known (sym decided_now);
  same_from = refl;
  same_to = refl;
  same_amount = refl;
}

fresh : IsFresh bank new_ids
unfolding get_journal find String_discrete
fresh = record {
  new_journal = refl;
  new_debit = refl;
  new_credit = refl;
  distinct = texts_differ "e5" "e6" refl;
}

accepted : Accepted bank "k1" order
unfolding get_account find String_discrete
accepted = record {
  decision = Decision.dual_control;
  row = decided;
  from = alice;
  to = bob;
  has_key = texts_differ "k1" "" refl;
  decided = refl;
  journalable = inr (inr (inr refl));
  has_ref = texts_differ "a1" "" refl;
  audited = refl;
  by_policy = refl;
  same_decision = refl;
  from_known = refl;
  to_known = refl;
  from_open = refl;
  to_open = refl;
}

trimmed : trim " k1 " ≡ "k1"
unfolding trim
trimmed = refl

unused : get_journal_by_idempotency bank (trim " k1 ") ≡ none
unfolding get_journal_by_idempotency find String_discrete Option_discrete trim
unused = refl

abbrev after : Db
after = after_first bank order new_ids 1_000_000_001

write_first_example :
    write_transfer_journal bank order new_ids 1_000_000_001
    ≡ some (ok (new_row order new_ids 1_000_000_001) false, after)
write_first_example =
    write_first bank order new_ids 1_000_000_001 fresh bank-Solvent.refers (rw trimmed accepted)
      unused (omega arith)

order_written :
    write_transfer_journal bank order new_ids 1_000_000_001
    ≡ some (ok (new_row order new_ids 1_000_000_001) false, after)
order_written =
    write_first bank order new_ids 1_000_000_001 fresh bank-Solvent.refers (rw trimmed accepted)
      unused (omega arith)

abbrev new_journal : Journal
new_journal = new_row order new_ids 1_000_000_001

abbrev final : Db
final = post_journal 1_000_000_002 "j2" after

opening_known : get_journal bank "j0" ≡ some opening
unfolding get_journal find String_discrete
opening_known = refl

waiting_known : get_journal bank "j1" ≡ some waiting_journal
unfolding get_journal find String_discrete
waiting_known = refl

new_known : get_journal after "j2" ≡ some new_journal
unfolding get_journal find String_discrete written journal_row
new_known = refl

new_pending : new_journal.status ≡ pending
unfolding journal_row status_for
new_pending = refl

approval :
    apply_pending_journal after "j2" 1_000_000_002
    ≡ some (some (mark_posted 1_000_000_002 new_journal), final)
approval = elim (apply_pending-Clears after "j2" 1_000_000_002 (some new_journal) new_known) [
  | inl (_, e) ↦ e
  | inr (settled, _) ↦ absurd (settled new_pending)
]

history : LedgerReach bank final
history =
    next
      (next here (
        transfers ask order new_ids 1_000_000_001 (ok new_journal false) follows fresh
          order_written))
      (approves "j2" 1_000_000_002 (some (mark_posted 1_000_000_002 new_journal)) approval)

LedgerReach-Solvent_example : Solvent final
LedgerReach-Solvent_example = LedgerReach-Solvent history bank-Solvent

bank-Sound : Sound bank
unfolding get_journal find String_discrete get_account sum_by ◌+ℤ◌ ◌-ℤ◌ Side_discrete
bank-Sound = record {
  refers = bank-Solvent.refers;
  accounts_in = (refl, (refl, (refl, (refl, tt))));
  unique = (refl, (refl, (refl, (refl, tt))));
  balanced = record { posted_net = refl; unposted_net = λ id. ground (arith) };
}

LedgerReach-conserves_example :
    ((posted_entry_sum final).0 ≡ (posted_entry_sum final).1) × (available_sum_all final ≡ pos 0)
LedgerReach-conserves_example = LedgerReach-conserves history bank-Sound

LedgerReach-Evolves_example :
    (j' : Journal) × (get_journal final "j0" ≡ some j') × Evolves opening j'
LedgerReach-Evolves_example = LedgerReach-Evolves "j0" opening history bank-Sound opening_known

apply_pending_journal-posts_example :
    Clearing
      (λ j. record j { status = JournalStatus.posted; posted_at = some 9 })
      (IsPosting 9 "j1" bank)
      bank
      (some waiting_journal)
      (apply_pending_journal bank "j1" 9)
apply_pending_journal-posts_example =
    apply_pending_journal-posts bank "j1" 9 (some waiting_journal) waiting_known

reject_pending_journal-denies_example :
    Clearing
      (λ j. record j { status = JournalStatus.denied })
      (IsDenying "j1" bank)
      bank
      (some waiting_journal)
      (reject_pending_journal bank "j1")
reject_pending_journal-denies_example =
    reject_pending_journal-denies bank "j1" (some waiting_journal) waiting_known

refusal-Accepted_example : (refusal bank "k1" order ≡ none) ↔ Accepted bank "k1" order
refusal-Accepted_example = refusal-Accepted bank "k1" order

write_again_example :
    write_transfer_journal after order new_ids 7
    ≡ some (if same_transfer_body new_journal order then ok new_journal true else conflict, after)
write_again_example =
    write_again bank order new_ids 1_000_000_001 order new_ids 7 unused refl (rw trimmed accepted)
