-- ===== src/Ledger/Write/Idempotence.antt =====
-- packages/core/src/ledger.ts, `writeTransferJournal` as a whole, by its idempotency key.
use agentic_bank.Common.{
  ℕ, ℤ, pos, ◌<ℤ◌, Bool-cases, ◌≡◌, refl, Bool, true, false, none, some, [], ◌∷◌, String, arith,
  find, find-append, trim, if◌then◌else◌, Option-cases, ◌⊎◌, inl, inr, string_eq, option_eq,
}
use agentic_bank.Store.{Journal, Db}
use agentic_bank.Ledger.{get_account, get_journal_by_idempotency}
use agentic_bank.Ledger.Write.{
  TransferJournalInput, FreshIds, JournalWriteResult, ok, journal_row, refusal, same_transfer_body,
  conflict, write_transfer_journal, is_unreadable,
}
use agentic_bank.Ledger.Write.Refusals.{Accepted, refusal-Accepted}
use agentic_bank.Ledger.Write.Effect.{
  IsFresh, RefersIn, written, write_new-eq, write_new-throws, is_posted,
}

abbrev pub row_of : TransferJournalInput → FreshIds → ℕ → Journal
row_of input ids ts = journal_row ids.journal (trim input.idempotency_key) input ts

row-key :
    (input : TransferJournalInput) (ids : FreshIds) (ts : ℕ)
    → (row_of input ids ts).idempotency_key ≡ some (trim input.idempotency_key)
unfolding journal_row
row-key input ids ts = refl

-- The tables after the first call with a key.
abbrev pub after_first : Db → TransferJournalInput → FreshIds → ℕ → Db
after_first db input ids ts = written (row_of input ids ts) (is_posted input) ts ids db

refusal-written :
    (db : Db) (j : Journal) (posted : Bool) (t : ℕ) (ids : FreshIds) (key : String)
    (input : TransferJournalInput)
    → refusal (written j posted t ids db) key input ≡ refusal db key input
unfolding refusal written get_account
refusal-written db j posted t ids key input = refl

key-written :
    (db : Db) (j : Journal) (posted : Bool) (t : ℕ) (ids : FreshIds) (key : String)
    → j.idempotency_key ≡ some key
    → get_journal_by_idempotency db key ≡ none
    → get_journal_by_idempotency (written j posted t ids db) key ≡ some j
unfolding get_journal_by_idempotency written find
key-written db j posted t ids key e unused = rw (find-append _ db.journals (j ∷ [])) (ground arith)

readable : (amount : ℤ) → amount <ℤ pos 9_007_199_254_740_992 → is_unreadable amount ≡ false
unfolding is_unreadable
readable amount small = ground arith

module _ (db : Db) (input : TransferJournalInput) (ids : FreshIds) (ts : ℕ) where
  written_first :
      IsFresh db ids
      → RefersIn db db.entries
      → Accepted db (trim input.idempotency_key) input
      → get_journal_by_idempotency db (trim input.idempotency_key) ≡ none
      → is_unreadable input.amount ≡ false
      → write_transfer_journal db input ids ts
        ≡ some (ok (row_of input ids ts) false, after_first db input ids ts)
  unfolding write_transfer_journal
  written_first fresh refers accepted unused readable =
      rw
        (
          (refusal-Accepted db (trim input.idempotency_key) input).1 accepted,
          unused,
          write_transfer_journal,
        )
        (write_new-eq db (trim input.idempotency_key) input ids ts fresh refers unused
          (ground arith) (ground arith) readable)

  throws_first :
      IsFresh db ids
      → Accepted db (trim input.idempotency_key) input
      → get_journal_by_idempotency db (trim input.idempotency_key) ≡ none
      → is_unreadable input.amount ≡ true
      → write_transfer_journal db input ids ts ≡ none
  unfolding write_transfer_journal
  throws_first fresh accepted unused big =
      rw
        (
          (refusal-Accepted db (trim input.idempotency_key) input).1 accepted,
          unused,
          write_transfer_journal,
        )
        (write_new-throws db (trim input.idempotency_key) input ids ts fresh unused (ground arith)
          (ground arith) big)

  -- A call that is accepted under a new key, for less than 2^53 won, writes the journal and its
  -- pair, and does not throw.
  pub write_first :
      IsFresh db ids
      → RefersIn db db.entries
      → Accepted db (trim input.idempotency_key) input
      → get_journal_by_idempotency db (trim input.idempotency_key) ≡ none
      → input.amount <ℤ pos 9_007_199_254_740_992
      → write_transfer_journal db input ids ts
        ≡ some (ok (row_of input ids ts) false, after_first db input ids ts)
  write_first fresh refers accepted unused small =
      written_first fresh refers accepted unused (readable input.amount small)

  -- After that, a call under the key that is accepted writes nothing, whatever ids and time it
  -- comes with: it returns the first journal if source, destination and amount agree, and the
  -- conflict if not.
  pub write_again :
      (later : TransferJournalInput) (ids' : FreshIds) (ts' : ℕ)
      → get_journal_by_idempotency db (trim input.idempotency_key) ≡ none
      → trim later.idempotency_key ≡ trim input.idempotency_key
      → Accepted db (trim later.idempotency_key) later
      → let db' = after_first db input ids ts in
        write_transfer_journal db' later ids' ts'
        ≡ some (
          if same_transfer_body (row_of input ids ts) later
              then ok (row_of input ids ts) true
              else conflict,
          db',
        )
  unfolding write_transfer_journal
  write_again later ids' ts' unused same accepted =
      let j = row_of input ids ts in
      rw (
        refusal-written db j (is_posted input) ts ids (trim later.idempotency_key) later,
        (refusal-Accepted db (trim later.idempotency_key) later).1 accepted,
        same,
        key-written db j (is_posted input) ts ids (trim input.idempotency_key)
            (row-key input ids ts) unused,
        write_transfer_journal,
      )

  -- A call that returns has left the tables alone, or has written an accepted transfer under a
  -- new key.
  pub write_cases :
      (r : JournalWriteResult) (db' : Db)
      → IsFresh db ids
      → RefersIn db db.entries
      → write_transfer_journal db input ids ts ≡ some (r, db')
      → (db' ≡ db)
        ⊎ (Accepted db (trim input.idempotency_key) input
            × (get_journal_by_idempotency db (trim input.idempotency_key) ≡ none)
            × (db' ≡ after_first db input ids ts))
  unfolding write_transfer_journal
  write_cases r db' fresh refers e =
      let key = trim input.idempotency_key in
      elim (Option-cases (refusal db key input)) [
        | inr (reason, refused) ↦ inl (ground arith)
        | inl passed ↦ elim (Option-cases (get_journal_by_idempotency db key)) [
          | inr (old, used) ↦ inl (ground arith)
          | inl unused ↦
              let accepted = (refusal-Accepted db key input).0 passed in
              elim (Bool-cases (is_unreadable input.amount)) [
                | inl big ↦ absurd (cc (e, throws_first fresh accepted unused big))
                | inr readable ↦
                    inr (accepted, unused, cc (written_first fresh refers accepted unused readable))
              ]
        ]
      ]
