-- ===== src/Ledger/Write/Effect.antt =====
-- What `writeTransferJournal` writes for a new key: one journal and its pair of entries.
use agentic_bank.Common.{
  ℕ, ◌≡◌, ◌≢◌, refl, Bool, true, false, ◌&&◌, none, some, List, [], ◌∷◌, ◌++◌, String, arith, ◌===◌,
  string_eq, find, select, find-append, select-append, select-nil, is_some, All, All-map, sum_by,
  add-zero, zero-add,
}
use agentic_bank.Store.{Journal, Entry, Db}
use agentic_bank.Store.Types.{Side, JournalStatus, journal_status_eq, side_eq, Side_discrete}
use agentic_bank.Ledger.{
  get_account, get_journal, get_journal_by_idempotency, journal_entries, entry_sides,
}
use agentic_bank.Ledger.Write.{
  TransferJournalInput, FreshIds, ok, entry_by_id, entry_of, journal_row, insert_journal,
  insert_entry, insert_entry_pair, settle_pair, write_new, read_journal, is_unreadable, status_for,
}

-- The random ids are new, as those of `randomUUID` are.
pub record IsFresh (db : Db) (ids : FreshIds) : Type 0 where
  pub new_journal : get_journal db ids.journal ≡ none
  pub new_debit : find (entry_by_id ids.debit) db.entries ≡ none
  pub new_credit : find (entry_by_id ids.credit) db.entries ≡ none
  pub distinct : ids.debit ≢ ids.credit

-- FOREIGN KEY (journal_id): the journal of every entry is in the table.
abbrev pub RefersIn : Db → List Entry → Type 0
RefersIn db = All (λ e. is_some (get_journal db e.journal_id) ≡ true)

unfoldable pub with_journal : Journal → Db → Db
with_journal j db = record db { journals = db.journals ++ j ∷ [] }

unfoldable pub with_entry : Entry → Db → Db
with_entry e db = record db { entries = db.entries ++ e ∷ [] }

pub get_journal-with_journal :
    (j : Journal) (db : Db)
    → get_journal db j.id ≡ none
    → get_journal (with_journal j db) j.id ≡ some j
unfolding get_journal with_journal find
get_journal-with_journal j db h = rw (find-append _ db.journals (j ∷ [])) (ground arith)

insert_journal-eq :
    (j : Journal) (key : String) (db : Db)
    → j.idempotency_key ≡ some key
    → get_journal db j.id ≡ none
    → get_journal_by_idempotency db key ≡ none
    → is_some (get_account db j.from_account_id) ≡ true
    → is_some (get_account db j.to_account_id) ≡ true
    → insert_journal j db ≡ some (with_journal j db)
unfolding insert_journal with_journal
insert_journal-eq j key db ek new unused from to = rw ek (ground arith)

insert_entry-eq :
    (e : Entry) (db : Db)
    → find (entry_by_id e.id) db.entries ≡ none
    → is_some (get_journal db e.journal_id) ≡ true
    → is_some (get_account db e.account_id) ≡ true
    → insert_entry e db ≡ some (with_entry e db)
unfolding insert_entry with_entry
insert_entry-eq e db new known account = ground arith

-- Entries that all refer to a journal of the table do not belong to a new one.
not_of_new :
    (db : Db) (id : String) (side : Side) (es : List Entry)
    → get_journal db id ≡ none
    → RefersIn db es
    → select (λ e. e.journal_id === id && e.side === side) es ≡ []
not_of_new db id side es new refers = select-nil _ es (All-map _ _ es (λ e h. ground arith) refers)

journal_entries-with_journal :
    (j : Journal) (db : Db)
    → get_journal db j.id ≡ none
    → RefersIn db db.entries
    → journal_entries (with_journal j db) j.id ≡ []
unfolding journal_entries with_journal
journal_entries-with_journal j db new refers = rw (
  not_of_new db j.id Side.credit db.entries new refers,
  not_of_new db j.id Side.debit db.entries new refers,
)

abbrev pub debit_of : Journal → Bool → ℕ → FreshIds → Entry
debit_of j posted ts ids = entry_of j posted ts ids.debit Side.debit j.from_account_id

abbrev pub credit_of : Journal → Bool → ℕ → FreshIds → Entry
credit_of j posted ts ids = entry_of j posted ts ids.credit Side.credit j.to_account_id

-- The tables after a new journal and its pair.
unfoldable pub written : Journal → Bool → ℕ → FreshIds → Db → Db
written j posted ts ids db = record db {
  journals = db.journals ++ j ∷ [];
  entries = (db.entries ++ debit_of j posted ts ids ∷ []) ++ credit_of j posted ts ids ∷ [];
}

find-with_entry :
    (e : Entry) (i : String) (db : Db)
    → e.id ≢ i
    → find (entry_by_id i) db.entries ≡ none
    → find (entry_by_id i) (with_entry e db).entries ≡ none
unfolding with_entry find
find-with_entry e i db ne h = rw (find-append _ db.entries (e ∷ [])) (ground arith)

module _ (ids : FreshIds) (j : Journal) (posted : Bool) (ts : ℕ) (db : Db) where
  debit_inserted :
      IsFresh db ids
      → j.id ≡ ids.journal
      → is_some (get_account db j.from_account_id) ≡ true
      → insert_entry (debit_of j posted ts ids) (with_journal j db)
        ≡ some (with_entry (debit_of j posted ts ids) (with_journal j db))
  unfolding with_journal get_account
  debit_inserted fresh id from =
      insert_entry-eq (debit_of j posted ts ids) (with_journal j db) fresh.new_debit
        (ground (arith, get_journal-with_journal j db)) from

  credit_inserted :
      IsFresh db ids
      → j.id ≡ ids.journal
      → is_some (get_account db j.to_account_id) ≡ true
      → insert_entry
          (credit_of j posted ts ids)
          (with_entry (debit_of j posted ts ids) (with_journal j db))
        ≡ some (written j posted ts ids db)
  unfolding with_journal with_entry get_account written get_journal
  credit_inserted fresh id to =
      insert_entry-eq (credit_of j posted ts ids)
        (with_entry (debit_of j posted ts ids) (with_journal j db))
        (find-with_entry (debit_of j posted ts ids) ids.credit (with_journal j db) fresh.distinct
          fresh.new_credit)
        (ground (arith, get_journal-with_journal j db)) to

  insert_entry_pair-eq :
      IsFresh db ids
      → j.id ≡ ids.journal
      → RefersIn db db.entries
      → is_some (get_account db j.from_account_id) ≡ true
      → is_some (get_account db j.to_account_id) ≡ true
      → insert_entry_pair ids j posted ts (with_journal j db) ≡ some (written j posted ts ids db)
  unfolding insert_entry_pair
  insert_entry_pair-eq fresh id refers from to =
      rw (nothing, debit_inserted fresh id from) (credit_inserted fresh id to)
    where
      nothing : journal_entries (with_journal j db) j.id ≡ []
      nothing = journal_entries-with_journal j db (rw id fresh.new_journal) refers

  journal_entries-written :
      get_journal db j.id ≡ none
      → RefersIn db db.entries
      → journal_entries (written j posted ts ids db) j.id
        ≡ credit_of j posted ts ids ∷ debit_of j posted ts ids ∷ []
  unfolding journal_entries written select
  journal_entries-written new refers =
      simp
        (
          select-append,
          not_of_new db j.id Side.credit db.entries new refers,
          not_of_new db j.id Side.debit db.entries new refers,
        )
        (ground arith)

  entry_sides-pair :
      entry_sides (credit_of j posted ts ids ∷ debit_of j posted ts ids ∷ []) ≡ (j.amount, j.amount)
  unfolding entry_sides sum_by Side_discrete
  entry_sides-pair = simp (add-zero, zero-add)

  settle_pair-written :
      get_journal db j.id ≡ none
      → RefersIn db db.entries
      → settle_pair j (written j posted ts ids db) ≡ (ok j false, written j posted ts ids db)
  unfolding settle_pair
  settle_pair-written new refers =
      rw (journal_entries-written new refers, entry_sides-pair) (ground arith)

abbrev pub is_posted : TransferJournalInput → Bool
is_posted input = status_for input.decision === JournalStatus.posted

-- A journal whose amount cannot be read back is not kept: the call throws.
pub write_new-throws :
    (db : Db) (key : String) (input : TransferJournalInput) (ids : FreshIds) (ts : ℕ)
    → IsFresh db ids
    → get_journal_by_idempotency db key ≡ none
    → is_some (get_account db input.from_account_id) ≡ true
    → is_some (get_account db input.to_account_id) ≡ true
    → is_unreadable input.amount ≡ true
    → write_new db key input ids ts ≡ none
unfolding write_new read_journal journal_row
write_new-throws db key input ids ts fresh unused from to big =
    let j = journal_row ids.journal key input ts in
    rw
      (
        insert_journal-eq j key db refl fresh.new_journal unused from to,
        get_journal-with_journal j db fresh.new_journal,
        big,
      )
      refl

pub write_new-eq :
    (db : Db) (key : String) (input : TransferJournalInput) (ids : FreshIds) (ts : ℕ)
    → IsFresh db ids
    → RefersIn db db.entries
    → get_journal_by_idempotency db key ≡ none
    → is_some (get_account db input.from_account_id) ≡ true
    → is_some (get_account db input.to_account_id) ≡ true
    → is_unreadable input.amount ≡ false
    → let j = journal_row ids.journal key input ts in
      write_new db key input ids ts ≡ some (ok j false, written j (is_posted input) ts ids db)
unfolding write_new read_journal journal_row
write_new-eq db key input ids ts fresh refers unused from to readable =
    let j = journal_row ids.journal key input ts in
    rw (
      insert_journal-eq j key db refl fresh.new_journal unused from to,
      get_journal-with_journal j db fresh.new_journal,
      readable,
      insert_entry_pair-eq ids j (is_posted input) ts db fresh refl refers from to,
      settle_pair-written ids j (is_posted input) ts db fresh.new_journal refers,
    )
