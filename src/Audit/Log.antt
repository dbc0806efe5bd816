-- ===== src/Audit/Log.antt =====
-- packages/core/src/audit.ts, `writeAudit`: the audit table as a log.
use agentic_bank.Common.{
  ℕ, none, some, List, [], ◌∷◌, ◌++◌, String, ◌≡◌, ◌≢◌, refl, arith, string_eq, find, find-append,
  ===_of_eq, ===_of_ne, Option-cases, inl, inr, ap, sym, ◌∙◌, ◌⊎◌, find_holds,
}
use agentic_bank.Store.{AuditRow, Db}
use agentic_bank.Audit.{WriteAuditInput, audit_by_id, get_audit, audit_row, write_audit, get_or}

-- What a call leaves: its row under its id, and every row that was there before.
abbrev pub Appended : Db → String → AuditRow → Db → Type 0
Appended before i row after =
    (get_audit after i ≡ some row)
    × ((j : String) (old : AuditRow) → get_audit before j ≡ some old → get_audit after j ≡ some old)

with_row : Db → AuditRow → Db
with_row db row = record db { audit = db.audit ++ row ∷ [] }

with_row-Appended :
    (db : Db) (row : AuditRow)
    → get_audit db row.audit_id ≡ none
    → Appended db row.audit_id row (with_row db row)
unfolding with_row get_audit find
with_row-Appended db row fresh = (
  rw (find-append (audit_by_id row.audit_id) db.audit (row ∷ []), fresh)
      (ground (arith, ===_of_eq row.audit_id row.audit_id refl)),
  λ j old e. rw (find-append (audit_by_id j) db.audit (row ∷ []), e),
)

module _ (db : Db) (input : WriteAuditInput) (uuid : String) (now : ℕ) where
  -- A call whose audit id is not empty succeeds: the table then holds the row that it returns under
  -- that id, and every row that it held before is found unchanged under its own id.
  pub write_audit-Appended :
      get_or input.audit_id uuid ≢ ""
      → (row : AuditRow) × (after : Db) × (write_audit db input uuid now ≡ some (row, after))
        × Appended db (get_or input.audit_id uuid) row after
  unfolding write_audit with_row
  write_audit-Appended h = elim (Option-cases (get_audit db (get_or input.audit_id uuid))) [
    | inl e ↦ (
      audit_row input (get_or input.audit_id uuid) now,
      with_row db (audit_row input (get_or input.audit_id uuid) now),
      rw (===_of_ne (get_or input.audit_id uuid) "" h, e),
      with_row-Appended db (audit_row input (get_or input.audit_id uuid) now) e,
    )
    | inr (old, e) ↦ (old, db, rw (===_of_ne (get_or input.audit_id uuid) "" h, e), (e, λ j o x. x))
  ]

++-nil : (xs : List AuditRow) → xs ++ [] ≡ xs
++-nil [] = refl
++-nil (x ∷ xs) = ap (λ ys. x ∷ ys) (++-nil xs)

module _ (db : Db) (input : WriteAuditInput) (uuid : String) (now : ℕ) (row : AuditRow) where
  -- The two ways in which a call returns.
  write_audit_cases :
      {after : Db}
      → write_audit db input uuid now ≡ some (row, after)
      → (get_or input.audit_id uuid ≢ "")
        × (((get_audit db (get_or input.audit_id uuid) ≡ some row) × (after ≡ db))
            ⊎ ((row ≡ audit_row input (get_or input.audit_id uuid) now)
                × (after ≡ record db { audit = db.audit ++ row ∷ [] })))
  unfolding write_audit
  write_audit_cases e = ground arith

  -- A call that succeeds adds rows to the audit table and changes nothing else, and the row that
  -- it returns has an id.
  pub write_audit-grows :
      {after : Db}
      → write_audit db input uuid now ≡ some (row, after)
      → ((rows : List AuditRow) × (after ≡ record db { audit = db.audit ++ rows }))
        × (row.audit_id ≢ "")
  unfolding get_audit audit_row
  write_audit-grows e =
      let (filled, ways) = write_audit_cases e in
      elim ways [
        | inl (found, same) ↦ (
          ([], same ∙ ap (λ rows. record db { audit = rows }) (sym (++-nil db.audit))),
          λ empty. filled (
              ground
                (arith, find_holds (audit_by_id (get_or input.audit_id uuid)) db.audit row found)),
        )
        | inr (new, grown) ↦ (
          (row ∷ [], grown),
          λ empty. filled (sym (ap (λ (r : AuditRow). r.audit_id) new) ∙ empty),
        )
      ]
