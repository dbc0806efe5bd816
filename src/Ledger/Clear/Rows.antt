-- ===== src/Ledger/Clear/Rows.antt =====
-- packages/core/src/ledger.ts, `applyPendingJournal` and `rejectPendingJournal`: what they do to the
-- rows of the tables.
use agentic_bank.Common.{
  ℕ, ◌≡◌, ◌≢◌, ◌⊎◌, inl, inr, refl, true, Option, none, some, List, [], ◌∷◌, String, update, ◌===◌,
  String_discrete, ===_of_eq, ===_of_ne, string_eq,
}
use agentic_bank.Store.{Journal, Entry, Db}
use agentic_bank.Store.Types.{JournalStatus, pending}
use agentic_bank.Ledger.{get_journal}
use agentic_bank.Ledger.Clear.{
  apply_pending_journal, reject_pending_journal, post_journal, deny_journal, mark_posted,
  mark_denied, post_entry,
}
use agentic_bank.Ledger.Clear.Lifecycle.{apply_pending-Clears, reject_pending-Clears}

module _ {A : Type 0} where
  -- Two tables have the same number of rows, and each row is related to the one in its place.
  abbrev pub Rowwise : (A → A → Type 0) → List A → List A → Type 0
  Rowwise R [] [] = Unit
  Rowwise R (x ∷ xs) (y ∷ ys) = R x y × Rowwise R xs ys
  Rowwise R [] (y ∷ ys) = ⊥
  Rowwise R (x ∷ xs) [] = ⊥

  -- The rows of a kind are changed, and no other row.
  abbrev pub ChangesOnly : (A → Type 0) → (A → A) → A → A → Type 0
  ChangesOnly P change x y = (P x × (y ≡ change x)) ⊎ (¬ P x × (y ≡ x))

  update-Rowwise :
      (key : A → String) (id : String) (change : A → A) (xs : List A)
      → Rowwise (ChangesOnly (λ x. key x ≡ id) change) xs (update (λ x. key x === id) change xs)
  unfolding update
  update-Rowwise key id change [] = tt
  update-Rowwise key id change (x ∷ xs) = elim (String_discrete (key x) id) [
    | yes hit ↦ (inl (hit, rw (===_of_eq (key x) id hit) refl), update-Rowwise key id change xs)
    | no miss ↦ (inr (miss, rw (===_of_ne (key x) id miss) refl), update-Rowwise key id change xs)
  ]

-- The journal of an id is posted, and its entries with it.
pub record IsPosting (ts : ℕ) (id : String) (db after : Db) : Type 0 where
  pub journals :
      Rowwise
        (ChangesOnly
          (λ j. j.id ≡ id)
          (λ j. record j { status = JournalStatus.posted; posted_at = some ts }))
        db.journals
        after.journals
  pub entries :
      Rowwise
        (ChangesOnly (λ e. e.journal_id ≡ id) (λ e. record e { posted = true }))
        db.entries
        after.entries
  pub rest : after ≡ record db { journals = after.journals; entries = after.entries }

-- The journal of an id is denied, and nothing else changes: its entries stay as they are.
pub record IsDenying (id : String) (db after : Db) : Type 0 where
  pub journals :
      Rowwise
        (ChangesOnly (λ j. j.id ≡ id) (λ j. record j { status = JournalStatus.denied }))
        db.journals
        after.journals
  pub rest : after ≡ record db { journals = after.journals }

-- How a call ends that clears the journal `o`.
abbrev pub Clearing :
    (Journal → Journal)
    → (Db → Type 0)
    → Db
    → Option Journal
    → Option (Option Journal × Db)
    → Type 0
Clearing cleared IsCleared db none r = r ≡ some (none, db)
Clearing cleared IsCleared db (some j) r =
    ((j.status ≡ pending) × ((after : Db) × (r ≡ some (some (cleared j), after)) × IsCleared after))
    ⊎ ((j.status ≢ pending) × (r ≡ some (some j, db)))

-- Posting never throws. A pending journal comes back with the new status and time and all else as it
-- was; its row is changed so, the flag is set on exactly the entries of the journal, and no other
-- row of any table changes. A settled or unknown journal comes back as it is and nothing changes.
pub apply_pending_journal-posts :
    (db : Db) (id : String) (ts : ℕ) (o : Option Journal)
    → get_journal db id ≡ o
    → Clearing
        (λ j. record j { status = JournalStatus.posted; posted_at = some ts })
        (IsPosting ts id db)
        db
        o
        (apply_pending_journal db id ts)
unfolding post_journal
apply_pending_journal-posts db id ts none known = apply_pending-Clears db id ts none known
apply_pending_journal-posts db id ts (some j) known =
    elim (apply_pending-Clears db id ts (some j) known) [
      | inr kept ↦ inr kept
      | inl (open_, done) ↦ inl (
        open_,
        (
          post_journal ts id db,
          done,
          record {
            journals = update-Rowwise (λ (k : Journal). k.id) id (mark_posted ts) db.journals;
            entries = update-Rowwise (λ (e : Entry). e.journal_id) id post_entry db.entries;
            rest = refl;
          },
        ),
      )
    ]

-- Denying never throws. A pending journal comes back denied and all else as it was; its row is
-- changed so, and no other row of any table changes: its entries stay as they are. A settled or
-- unknown journal comes back as it is and nothing changes.
pub reject_pending_journal-denies :
    (db : Db) (id : String) (o : Option Journal)
    → get_journal db id ≡ o
    → Clearing
        (λ j. record j { status = JournalStatus.denied })
        (IsDenying id db)
        db
        o
        (reject_pending_journal db id)
unfolding deny_journal
reject_pending_journal-denies db id none known = reject_pending-Clears db id none known
reject_pending_journal-denies db id (some j) known =
    elim (reject_pending-Clears db id (some j) known) [
      | inr kept ↦ inr kept
      | inl (open_, done) ↦ inl (
        open_,
        (
          deny_journal id db,
          done,
          record {
            journals = update-Rowwise (λ (k : Journal). k.id) id mark_denied db.journals;
            rest = refl;
          },
        ),
      )
    ]
