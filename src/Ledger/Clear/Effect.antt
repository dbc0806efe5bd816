-- ===== src/Ledger/Clear/Effect.antt =====
-- What posting and denying a pending journal do to the spendable funds of every account.
use agentic_bank.Common.{
  ℕ, ◌≡◌, ◌≢◌, inl, inr, refl, sym, ap, ◌∙◌, not, ◌&&◌, Option, none, some, String, String_discrete,
  ===_of_eq, ===_of_ne, add-zero, ℤ, pos, ◌+ℤ◌, if◌then◌else◌, ◌===◌, string_eq, update,
  find-update, find_holds, is_some, sum_by, sum_by-update, sum_by-add, sum_by-cong, int_laws, arith,
  Option-cases,
}
use agentic_bank.Store.{Journal, Entry, Db}
use agentic_bank.Store.Types.{Side, JournalStatus, side_eq, journal_status_eq}
use agentic_bank.Ledger.{get_journal, journal_by_id, amount_if}
use agentic_bank.Ledger.Spendable.{spendable, weight, spendable-sum}
use agentic_bank.Ledger.Clear.{
  post_journal, deny_journal, mark_posted, mark_denied, post_entry, entry_of_journal,
}

-- A lookup after an UPDATE of one journal that keeps its id.
get_journal-update :
    (db : Db) (id k : String) (u : Journal → Journal)
    → ((j : Journal) → (u j).id ≡ j.id)
    → get_journal (record db { journals = update (journal_by_id id) u db.journals }) k
      ≡ elim (get_journal db k) [ none ↦ none | some j ↦ some (if j.id === id then u j else j) ]
unfolding get_journal
get_journal-update db id k u keeps =
    find-update (journal_by_id k) (journal_by_id id) u db.journals
      (λ j. ap (λ i. i === k) (keeps j))

pub get_journal_holds : (db : Db) (k : String) (j : Journal) → get_journal db k ≡ some j → j.id ≡ k
unfolding get_journal
get_journal_holds db k j e = ground (arith, find_holds (journal_by_id k) db.journals j e)

-- The unposted entries of one side that a journal has on an account.
abbrev pub waiting : Side → String → String → Entry → ℤ
waiting side id a =
    amount_if λ e. e.journal_id === id && not e.posted && e.account_id === a && e.side === side

-- The other journals are read as before.
get_journal-update_ne :
    (db : Db) (id k : String) (u : Journal → Journal)
    → ((j : Journal) → (u j).id ≡ j.id)
    → k ≢ id
    → get_journal (record db { journals = update (journal_by_id id) u db.journals }) k
      ≡ get_journal db k
get_journal-update_ne db id k u keeps ne = elim (Option-cases (get_journal db k)) [
  | inl e ↦ get_journal-update db id k u keeps ∙ rw e
  | inr (j, e) ↦ get_journal-update db id k u keeps ∙ ground (arith, e, get_journal_holds db k j e)
]

is_some-update :
    (db : Db) (id k : String) (u : Journal → Journal)
    → ((j : Journal) → (u j).id ≡ j.id)
    → is_some (get_journal (record db { journals = update (journal_by_id id) u db.journals }) k)
      ≡ is_some (get_journal db k)
is_some-update db id k u keeps = rw (get_journal-update db id k u keeps) (ground arith)

waiting_miss :
    (side : Side) (id a : String) (e : Entry) → e.journal_id ≢ id → waiting side id a e ≡ pos 0
waiting_miss side id a e ne = ground arith

weight-waiting :
    (id a : String) (e : Entry) (j : Journal) (o : Option Journal)
    → e.journal_id ≡ id
    → j.status ≡ JournalStatus.pending
    → weight a (post_entry e) o ≡ weight a e (some j) +ℤ waiting Side.credit id a e
weight-waiting id a e j o hit pending = grind int_laws

weight_denied :
    (id a : String) (e : Entry) (j : Journal)
    → e.journal_id ≡ id
    → j.status ≡ JournalStatus.pending
    → weight a e (some (mark_denied j)) ≡ weight a e (some j) +ℤ waiting Side.debit id a e
weight_denied id a e j hit pending = grind int_laws

-- A row of the entries after the UPDATE.
unfoldable pub after_post : String → Entry → Entry
after_post id e = if entry_of_journal id e then post_entry e else e

pub after_post-hit : (id : String) (e : Entry) → e.journal_id ≡ id → after_post id e ≡ post_entry e
unfolding after_post
after_post-hit id e hit = rw (===_of_eq e.journal_id id hit)

pub after_post-miss : (id : String) (e : Entry) → e.journal_id ≢ id → after_post id e ≡ e
unfolding after_post
after_post-miss id e miss = rw (===_of_ne e.journal_id id miss)

module _ (ts : ℕ) (id a : String) (db : Db) (j : Journal) where
  pub get_journal-post_ne :
      (k : String) → k ≢ id → get_journal (post_journal ts id db) k ≡ get_journal db k
  unfolding get_journal post_journal
  get_journal-post_ne k ne = get_journal-update_ne db id k (mark_posted ts) (λ _. refl) ne

  pub is_some-post :
      (k : String) → is_some (get_journal (post_journal ts id db) k) ≡ is_some (get_journal db k)
  unfolding get_journal post_journal
  is_some-post k = is_some-update db id k (mark_posted ts) (λ _. refl)

  pub get_journal-post_self :
      get_journal db id ≡ some j → get_journal (post_journal ts id db) id ≡ some (mark_posted ts j)
  unfolding get_journal post_journal
  get_journal-post_self known =
      get_journal-update db id id (mark_posted ts) (λ _. refl)
      ∙ rw known (ground (arith, get_journal_holds db id j known))

  weight-post :
      (e : Entry)
      → get_journal db id ≡ some j
      → j.status ≡ JournalStatus.pending
      → weight a
          (after_post id e)
          (get_journal (post_journal ts id db) (after_post id e).journal_id)
        ≡ weight a e (get_journal db e.journal_id) +ℤ waiting Side.credit id a e
  weight-post e known pending = elim (String_discrete e.journal_id id) [
    | yes hit ↦
        rw (after_post-hit id e hit, ap (get_journal db) hit ∙ known)
          (weight-waiting id a e j none hit pending)
    | no miss ↦
        rw
          (
            after_post-miss id e miss,
            get_journal-post_ne e.journal_id miss,
            waiting_miss Side.credit id a e miss,
          )
          (sym (add-zero _))
  ]

  -- Posting a pending journal gives each account what the journal credits to it, and takes
  -- nothing from any account: what it debits was held already.
  pub spendable-post :
      get_journal db id ≡ some j
      → j.status ≡ JournalStatus.pending
      → spendable (post_journal ts id db) a
        ≡ spendable db a +ℤ sum_by (waiting Side.credit id a) db.entries
  unfolding after_post post_journal
  spendable-post known pending =
      rw (spendable-sum (post_journal ts id db) a, spendable-sum db a)
        (sum_by-update _ (entry_of_journal id) post_entry db.entries
          ∙ sum_by-cong _ _ db.entries (λ e. weight-post e known pending)
          ∙ sum_by-add _ (waiting Side.credit id a) db.entries)

module _ (id a : String) (db : Db) (j : Journal) where
  pub get_journal-deny_ne :
      (k : String) → k ≢ id → get_journal (deny_journal id db) k ≡ get_journal db k
  unfolding get_journal deny_journal
  get_journal-deny_ne k ne = get_journal-update_ne db id k mark_denied (λ _. refl) ne

  pub is_some-deny :
      (k : String) → is_some (get_journal (deny_journal id db) k) ≡ is_some (get_journal db k)
  unfolding get_journal deny_journal
  is_some-deny k = is_some-update db id k mark_denied (λ _. refl)

  pub get_journal-deny_self :
      get_journal db id ≡ some j → get_journal (deny_journal id db) id ≡ some (mark_denied j)
  unfolding deny_journal
  get_journal-deny_self known =
      get_journal-update db id id mark_denied (λ _. refl)
      ∙ rw known (ground (arith, get_journal_holds db id j known))

  weight-deny :
      (e : Entry)
      → get_journal db id ≡ some j
      → j.status ≡ JournalStatus.pending
      → weight a e (get_journal (deny_journal id db) e.journal_id)
        ≡ weight a e (get_journal db e.journal_id) +ℤ waiting Side.debit id a e
  weight-deny e known pending = elim (String_discrete e.journal_id id) [
    | yes hit ↦
        rw
          (
            ap (get_journal (deny_journal id db)) hit ∙ get_journal-deny_self known,
            ap (get_journal db) hit ∙ known,
          )
          (weight_denied id a e j hit pending)
    | no miss ↦
        rw (get_journal-deny_ne e.journal_id miss, waiting_miss Side.debit id a e miss)
          (sym (add-zero _))
  ]

  -- Denying a pending journal gives each account back what the journal held on it.
  pub spendable-deny :
      get_journal db id ≡ some j
      → j.status ≡ JournalStatus.pending
      → spendable (deny_journal id db) a
        ≡ spendable db a +ℤ sum_by (waiting Side.debit id a) db.entries
  unfolding deny_journal
  spendable-deny known pending =
      rw (spendable-sum (deny_journal id db) a, spendable-sum db a)
        (sum_by-cong _ _ db.entries (λ e. weight-deny e known pending)
          ∙ sum_by-add _ (waiting Side.debit id a) db.entries)
