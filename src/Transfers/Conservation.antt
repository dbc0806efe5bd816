-- ===== src/Transfers/Conservation.antt =====
-- Double entry in packages/core/src/ledger.ts: the posted entries of both sides, and the unposted
-- ones of each journal.
pub mod Totals
pub mod Steps
use agentic_bank.Common.{
  ℕ, ◌≡◌, ◌≢◌, refl, sym, ◌∙◌, Bool, true, false, not, ◌&&◌, String, String_discrete, ℤ, pos, ◌+ℤ◌,
  ◌-ℤ◌, if◌then◌else◌, ◌===◌, ===_of_eq, ===_of_ne, string_eq, int_laws, arith, sum_by, sum_by-cong,
  sum_by-sub, sum_by-add, sum_by-zero, sum_by-update, update, equal_of_net, List,
}
use agentic_bank.Store.{Journal, Entry, Db}
use agentic_bank.Store.Types.{Side, side_eq}
use agentic_bank.Ledger.{get_journal, posted_entry_sum, amount_if}
use agentic_bank.Ledger.Spendable.{signed, sum-entries}
use agentic_bank.Ledger.Write.{FreshIds}
use agentic_bank.Ledger.Write.Effect.{written, debit_of, credit_of}
use agentic_bank.Ledger.Clear.{post_journal, post_entry, entry_of_journal}
use agentic_bank.Ledger.Clear.Effect.{after_post, after_post-hit, after_post-miss}

-- Credits less debits, over the posted entries, and over the unposted ones of one journal.
abbrev pub net_posted : Entry → ℤ
net_posted e = if e.posted then signed e else pos 0

abbrev pub net_unposted : String → Entry → ℤ
net_unposted id e = if e.journal_id === id && not e.posted then signed e else pos 0

pub record Balanced (es : List Entry) : Type 0 where
  pub posted_net : sum_by net_posted es ≡ pos 0
  pub unposted_net : (id : String) → sum_by (net_unposted id) es ≡ pos 0

abbrev posted_on : Side → Entry → ℤ
posted_on side = amount_if λ e. e.side === side && e.posted

net_posted-eq : (e : Entry) → net_posted e ≡ posted_on Side.credit e -ℤ posted_on Side.debit e
net_posted-eq e = grind int_laws

-- The sums of the two sides, as the code computes them, are equal.
pub Balanced-sides :
    (db : Db) → Balanced db.entries → (posted_entry_sum db).0 ≡ (posted_entry_sum db).1
unfolding posted_entry_sum
Balanced-sides db b = equal_of_net _ _ (
    sym (sum_by-sub (posted_on Side.credit) (posted_on Side.debit) db.entries)
    ∙ sym (sum_by-cong _ _ db.entries net_posted-eq)
    ∙ b.posted_net)

pair_net :
    (j : Journal) (posted : Bool) (ts : ℕ) (ids : FreshIds)
    → pos 0 +ℤ (net_posted (debit_of j posted ts ids) +ℤ net_posted (credit_of j posted ts ids))
      ≡ pos 0
pair_net j posted ts ids = grind int_laws

pair_unposted_net :
    (id : String) (j : Journal) (posted : Bool) (ts : ℕ) (ids : FreshIds)
    → pos 0
        +ℤ (net_unposted id (debit_of j posted ts ids)
            +ℤ net_unposted id (credit_of j posted ts ids))
      ≡ pos 0
pair_unposted_net id j posted ts ids = grind int_laws

pub written-Balanced :
    (j : Journal) (posted : Bool) (ts : ℕ) (ids : FreshIds) (db : Db)
    → Balanced db.entries
    → Balanced (written j posted ts ids db).entries
written-Balanced j posted ts ids db b = record {
  posted_net =
      sum-entries j posted ts ids db net_posted ∙ rw b.posted_net (pair_net j posted ts ids);
  unposted_net = λ id.
      sum-entries j posted ts ids db (net_unposted id)
      ∙ rw (b.unposted_net id) (pair_unposted_net id j posted ts ids);
}

-- Posting a journal moves its unposted net to the posted one.
module _ (id : String) where
  net_posted-post : (e : Entry) → net_posted (after_post id e) ≡ net_posted e +ℤ net_unposted id e
  unfolding after_post
  net_posted-post e = grind int_laws

  net_unposted-post_self : (e : Entry) → net_unposted id (after_post id e) ≡ pos 0
  unfolding after_post
  net_unposted-post_self e = ground arith

  net_unposted-post_other :
      (k : String) → k ≢ id → (e : Entry) → net_unposted k (after_post id e) ≡ net_unposted k e
  unfolding after_post
  net_unposted-post_other k ne e = ground arith

  unposted_net-post :
      (k : String) (es : List Entry)
      → Balanced es
      → sum_by (λ e. net_unposted k (after_post id e)) es ≡ pos 0
  unposted_net-post k es b = elim (String_discrete k id) [
    | yes same ↦ rw same (sum_by-cong _ _ es net_unposted-post_self ∙ sum_by-zero es)
    | no other ↦ sum_by-cong _ _ es (net_unposted-post_other k other) ∙ b.unposted_net k
  ]

  pub update-Balanced :
      (es : List Entry) → Balanced es → Balanced (update (entry_of_journal id) post_entry es)
  unfolding after_post
  update-Balanced es b = record {
    posted_net =
        sum_by-update net_posted (entry_of_journal id) post_entry es
        ∙ sum_by-cong _ _ es net_posted-post
        ∙ sum_by-add net_posted (net_unposted id) es
        ∙ rw (b.posted_net, b.unposted_net id) (omega int_laws);
    unposted_net = λ k.
        sum_by-update (net_unposted k) (entry_of_journal id) post_entry es
        ∙ unposted_net-post k es b;
  }
