-- ===== src/Bookkeeper/Documents.antt =====
-- packages/core/src/bookkeeper.ts, `setBookDocument`: what is kept is what was set.
use agentic_bank.Common.{
  ◌≡◌, ◌≢◌, ◌⊎◌, inl, inr, refl, sym, ap, ◌∙◌, Bool, true, false, ◌&&◌, Option, none, some, List,
  [], ◌∷◌, ◌++◌, ℕ, String, string_eq, ◌===◌, find, delete, find-append, arith, Bool-cases,
  ===_of_eq, ===_of_ne,
}
use agentic_bank.Store.{Db}
use agentic_bank.Store.Shop.{BookDocument}
use agentic_bank.Bookkeeper.{BookDoc, is_held, set_book_document, list_book_documents}

abbrev is_row : String → String → BookDocument → Bool
is_row customer_id doc_id d = d.customer_id === customer_id && d.doc_id === doc_id

find-deleted : (p : BookDocument → Bool) (ds : List BookDocument) → find p (delete p ds) ≡ none
unfolding find delete
find-deleted p [] = refl
find-deleted p (d ∷ ds) = elim (Bool-cases (p d)) [
  | inl hit ↦ rw hit (find-deleted p ds)
  | inr miss ↦ rw (miss, miss) (find-deleted p ds)
]

-- A row that the condition does not meet is found as before.
find-delete_other :
    (p q : BookDocument → Bool) (ds : List BookDocument)
    → ((d : BookDocument) → q d ≡ true → p d ≡ false)
    → find q (delete p ds) ≡ find q ds
unfolding find delete
find-delete_other p q [] apart = refl
find-delete_other p q (d ∷ ds) apart = ground (arith, apart d, find-delete_other p q ds apart)

module _ (ds : List BookDocument) (row : BookDocument) where
  -- The row that replaces the one of its key is found under that key.
  replaced_here :
      find
        (is_row row.customer_id row.doc_id)
        (delete (is_row row.customer_id row.doc_id) ds ++ row ∷ [])
      ≡ some row
  unfolding find
  replaced_here =
      let p = is_row row.customer_id row.doc_id in
      rw (
        find-append p (delete p ds) (row ∷ []),
        find-deleted p ds,
        ===_of_eq row.customer_id row.customer_id refl,
        ===_of_eq row.doc_id row.doc_id refl,
      )

  -- Any other key finds what it found before.
  replaced_elsewhere :
      (other d : String)
      → (other ≢ row.customer_id) ⊎ (d ≢ row.doc_id)
      → find (is_row other d) (delete (is_row row.customer_id row.doc_id) ds ++ row ∷ [])
        ≡ find (is_row other d) ds
  unfolding find
  replaced_elsewhere other d differs =
      let p = is_row row.customer_id row.doc_id in
      let q = is_row other d in
      find-append q (delete p ds) (row ∷ [])
      ∙ rw (find-delete_other p q ds (apart differs)) (added (missed differs) (find q ds))
    where
      missed : (other ≢ row.customer_id) ⊎ (d ≢ row.doc_id) → is_row other d row ≡ false
      missed (inl ne) = rw (===_of_ne row.customer_id other (λ h. ne (sym h)))
      missed (inr ne) = ground (arith, ===_of_ne row.doc_id d (λ h. ne (sym h)))

      apart :
          (other ≢ row.customer_id) ⊎ (d ≢ row.doc_id)
          → (b : BookDocument) → is_row other d b ≡ true
          → is_row row.customer_id row.doc_id b ≡ false
      apart (inl ne) b hit =
          let same : b.customer_id ≡ other = ground (arith, hit) in
          rw (===_of_ne b.customer_id row.customer_id (λ h. ne (sym same ∙ h)))
      apart (inr ne) b hit =
          let same : b.doc_id ≡ d = ground (arith, hit) in
          ground (arith, ===_of_ne b.doc_id row.doc_id (λ h. ne (sym same ∙ h)))

      added :
          is_row other d row ≡ false
          → (o : Option BookDocument)
          → elim o [ none ↦ find (is_row other d) (row ∷ []) | some x ↦ some x ] ≡ o
      added miss none = rw miss
      added miss (some x) = refl

abbrev held_of : Option BookDocument → Bool
held_of none = false
held_of (some d) = d.held

is_held-find :
    (db : Db) (customer_id doc_id : String)
    → is_held db customer_id doc_id ≡ held_of (find (is_row customer_id doc_id) db.book_documents)
unfolding is_held
is_held-find db customer_id doc_id = by_row (find (is_row customer_id doc_id) db.book_documents)
  where
    by_row : (o : Option BookDocument) → elim o [ none ↦ false | some d ↦ d.held ] ≡ held_of o
    by_row none = refl
    by_row (some d) = refl

-- After a document has been set for a customer, it is held exactly as it was set, every other
-- document of anyone is held as before, and the list that the call returns is the one of the
-- database that it leaves.
pub set_book_document-is_held :
    (db after : Db) (customer_id doc_id : String) (held : Bool) (now : ℕ) (docs : List BookDoc)
    → set_book_document db customer_id doc_id held now ≡ some (docs, after)
    → (is_held after customer_id doc_id ≡ held)
      × ((other d : String)
          → (other ≢ customer_id) ⊎ (d ≢ doc_id)
          → is_held after other d ≡ is_held db other d)
      × (docs ≡ list_book_documents after customer_id)
unfolding set_book_document
set_book_document-is_held db after customer_id doc_id held now docs e =
    let row : BookDocument = record {
      customer_id = customer_id;
      doc_id = doc_id;
      held = held;
      updated_at = now;
    } in
    let same : after.book_documents
        ≡ delete (is_row customer_id doc_id) db.book_documents ++ row ∷ [] =
      ground arith in
    (
      is_held-find after customer_id doc_id
          ∙ ap held_of
              (ap (find (is_row customer_id doc_id)) same ∙ replaced_here db.book_documents row),
      λ other d differs.
          is_held-find after other d
          ∙ ap held_of (
              ap (find (is_row other d)) same
              ∙ replaced_elsewhere db.book_documents row other d differs)
          ∙ sym (is_held-find db other d),
      ground arith,
    )
