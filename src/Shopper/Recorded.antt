-- ===== src/Shopper/Recorded.antt =====
-- packages/core/src/shopper.ts, `enrollProduct`: what an enrollment that returns has changed.
use agentic_bank.Common.{
  ◌≡◌, ◌≢◌, inl, inr, refl, Option, none, some, List, [], ◌∷◌, ◌++◌, String, String_discrete,
  string_eq, ◌===◌, find, arith, >>=-some, Bool-cases, Option-cases, ===_of_ne,
}
use agentic_bank.Store.{AuditRow, Db, ToolResult}
use agentic_bank.Store.Shop.{
  KycCase, KycStatus, Enrollment, EnrollmentStatus, kyc_status_eq, enrollment_status_eq,
}
use agentic_bank.Audit.{write_audit, get_or}
use agentic_bank.Audit.Log.{write_audit-grows}
use agentic_bank.Policy.{copy_posted}
use agentic_bank.Kyc.{KycView, missing_labels, read_case, get_kyc}
use agentic_bank.Kyc.Recorded.{audited_then}
use agentic_bank.Shopper.Products.{ShopProduct, products, product_by_id}
use agentic_bank.Shopper.{
  ShopDraws, shop_customer_id, insert_attempt, update_attempt, attempt_row, copy_kyc_required,
  posted_attempt, denied_attempt, complete_enrollment, complete_audit, enroll_denied,
  documents_incomplete, required_audit, kyc_stop, docs_for_gate, enroll_gated, enroll_known,
  existing_attempt, enroll_product,
}

-- The customer's check has been passed.
abbrev pub IsPassed : Db → Type 0
IsPassed db =
    (c : KycCase) × (read_case db shop_customer_id ≡ some c) × (c.status ≡ KycStatus.passed)

-- What may be written on an attempt for a product: an open or denied status at any time, and the
-- completion with all documents after the check has been passed.
pub data MayHold (db : Db) (product : ShopProduct) (status : EnrollmentStatus)
    (documents : List String) : Type 0 where
  not_completed : status ≢ EnrollmentStatus.posted → MayHold db product status documents
  complete :
      IsPassed db
      → missing_labels product.documents documents ≡ []
      → MayHold db product status documents

-- What an enrollment changes: the audit table, and one attempt for the product, which is new or
-- was not completed.
pub data ShopEffect (db after : Db) : Type 0 where
  audited : (rows : List AuditRow) → after ≡ record db { audit = rows } → ShopEffect db after
  inserted :
      (rows : List AuditRow) (product : ShopProduct) (draws : ShopDraws) (documents : List String)
      (status : EnrollmentStatus) (copy audit_id product_id : String)
      → find (product_by_id product_id) products ≡ some product
      → MayHold db product status documents
      → insert_attempt
          (record db { audit = rows })
          (attempt_row draws shop_customer_id product documents status copy audit_id)
        ≡ some after
      → ShopEffect db after
  updated :
      (rows : List AuditRow) (product : ShopProduct) (old new : Enrollment)
      (f : Enrollment → Enrollment) (product_id : String)
      → find (product_by_id product_id) products ≡ some product
      → existing_attempt db product ≡ some old
      → old.status ≢ EnrollmentStatus.posted
      → f old ≡ new
      → ((x : Enrollment) → (f x).id ≡ x.id)
      → new.customer_id ≡ old.customer_id
      → new.idempotency_key ≡ old.idempotency_key
      → MayHold db product new.status new.documents
      → after ≡ update_attempt old.id f (record db { audit = rows })
      → ShopEffect db after

get_kyc-IsPassed : (db : Db) → (get_kyc db shop_customer_id).status ≡ KycStatus.passed → IsPassed db
unfolding get_kyc String_discrete
get_kyc-IsPassed db h = elim (Option-cases (read_case db shop_customer_id)) [
  | inl e ↦ absurd (ground (arith, e))
  | inr (c, e) ↦ (c, e, ground (arith, e))
]

-- The database with one more audit row.
module _ (draws : ShopDraws) (db : Db) {after : Db} (product : ShopProduct) (product_id : String)
    (known : find (product_by_id product_id) products ≡ some product) where
  complete-ShopEffect :
      (documents : List String) (existing : Option Enrollment) (r : ToolResult)
      → IsPassed db
      → missing_labels product.documents documents ≡ []
      → existing_attempt db product ≡ existing
      → ((old : Enrollment) → existing ≡ some old → old.status ≢ EnrollmentStatus.posted)
      → complete_enrollment draws db shop_customer_id product documents existing ≡ some (r, after)
      → ShopEffect db after
  unfolding complete_enrollment posted_attempt
  complete-ShopEffect documents none r passed full there open_ e =
      let ((row, d1), w, e1) =
        >>=-some (write_audit db (complete_audit product documents) draws.audit_uuid draws.audit_at)
          _ e in
      let ((rows, g), _) = write_audit-grows db _ _ _ row w in
      let (d2, i, last) =
        >>=-some
          (insert_attempt d1 (
            attempt_row draws shop_customer_id product documents EnrollmentStatus.posted copy_posted
              row.audit_id))
          _ e1 in
      inserted (db.audit ++ rows) product draws documents EnrollmentStatus.posted copy_posted
        row.audit_id product_id known (complete passed full) (cc (g, i, last))
  complete-ShopEffect documents (some old) r passed full there open_ e =
      let ((row, d1), w, last) =
        >>=-some (write_audit db (complete_audit product documents) draws.audit_uuid draws.audit_at)
          _ e in
      let ((rows, g), _) = write_audit-grows db _ _ _ row w in
      updated (db.audit ++ rows) product old (posted_attempt documents row.audit_id old)
        (posted_attempt documents row.audit_id) product_id known there (open_ old refl) refl
        (λ x. refl) refl refl (complete passed full) (cc (g, last))

  kyc_stop-ShopEffect :
      (checked : List String) (r : ToolResult)
      → kyc_stop draws db shop_customer_id product checked ≡ some (r, after)
      → ShopEffect db after
  unfolding kyc_stop
  kyc_stop-ShopEffect checked r e =
      let ((row, d1), w, e1) =
        >>=-some (write_audit db (required_audit product checked) draws.audit_uuid draws.audit_at) _
          e in
      let ((rows, g), _) = write_audit-grows db _ _ _ row w in
      let (d2, i, last) =
        >>=-some
          (insert_attempt d1 (
            attempt_row draws shop_customer_id product checked EnrollmentStatus.kyc_required
              copy_kyc_required row.audit_id))
          _ e1 in
      inserted (db.audit ++ rows) product draws checked EnrollmentStatus.kyc_required
        copy_kyc_required row.audit_id product_id known (not_completed (λ h. cc)) (cc (g, i, last))

  documents_incomplete-ShopEffect :
      (checked missing : List String) (r : ToolResult)
      → documents_incomplete draws db product checked missing ≡ some (r, after)
      → ShopEffect db after
  unfolding documents_incomplete
  documents_incomplete-ShopEffect checked missing r e =
      let (rows, grown) = audited_then db _ _ _ _ e in audited rows grown

  enroll_denied-ShopEffect :
      (kyc : KycView) (existing : Option Enrollment) (r : ToolResult)
      → existing_attempt db product ≡ existing
      → ((old : Enrollment) → existing ≡ some old → old.status ≢ EnrollmentStatus.posted)
      → some (enroll_denied db kyc product.id existing) ≡ some (r, after)
      → ShopEffect db after
  unfolding enroll_denied
  enroll_denied-ShopEffect kyc none r there open_ e = audited db.audit (cc e)
  enroll_denied-ShopEffect kyc (some old) r there open_ e =
      elim (Bool-cases (old.status === EnrollmentStatus.kyc_denied)) [
        | inl closed ↦ audited db.audit (ground (arith, closed))
        | inr waits ↦
            updated db.audit product old (denied_attempt (get_or kyc.audit_id old.audit_id) old)
              (denied_attempt (get_or kyc.audit_id old.audit_id)) product_id known there
              (open_ old refl) refl (λ x. refl) refl refl (not_completed (λ h. cc))
              (ground (arith, waits))
      ]

  enroll_gated-ShopEffect :
      (checked : List String) (kyc : KycStatus) (existing : Option Enrollment) (r : ToolResult)
      → (kyc ≡ KycStatus.passed → IsPassed db)
      → existing_attempt db product ≡ existing
      → ((old : Enrollment) → existing ≡ some old → old.status ≢ EnrollmentStatus.posted)
      → enroll_gated draws db shop_customer_id product checked kyc existing ≡ some (r, after)
      → ShopEffect db after
  unfolding enroll_gated
  enroll_gated-ShopEffect checked kyc existing r passed there open_ e =
      by_missing (missing_labels product.documents (docs_for_gate checked existing)) refl
    where
      by_missing :
          (labels : List String)
          → missing_labels product.documents (docs_for_gate checked existing) ≡ labels
          → ShopEffect db after
      by_missing (label ∷ labels) missing =
          documents_incomplete-ShopEffect checked (label ∷ labels) r (ground (arith, missing))
      by_missing [] full = elim (Bool-cases (kyc === KycStatus.passed)) [
        | inl h ↦
            complete-ShopEffect (docs_for_gate checked existing) existing r
              (passed (ground (arith, h))) full there open_ (ground (arith, full, h))
        | inr h ↦ kyc_stop-ShopEffect checked r (ground (arith, full, h))
      ]

  enroll_known-ShopEffect :
      (checked : List String) (kyc : KycView) (existing : Option Enrollment) (r : ToolResult)
      → (kyc.status ≡ KycStatus.passed → IsPassed db)
      → existing_attempt db product ≡ existing
      → enroll_known draws db shop_customer_id product checked kyc existing ≡ some (r, after)
      → ShopEffect db after
  unfolding enroll_known
  enroll_known-ShopEffect checked kyc none r passed there e =
      elim (Bool-cases (kyc.status === KycStatus.denied)) [
        | inl h ↦
            enroll_denied-ShopEffect kyc none r there (λ old x. absurd (cc)) (ground (arith, h))
        | inr h ↦
            enroll_gated-ShopEffect checked kyc.status none r passed there (λ old x. absurd (cc))
              (ground (arith, h))
      ]
  enroll_known-ShopEffect checked kyc (some old) r passed there e =
      elim (Bool-cases (old.status === EnrollmentStatus.posted)) [
        | inl done ↦ audited db.audit (ground (arith, done))
        | inr waits ↦
            let open_ : (o : Enrollment) → some old ≡ some o → o.status ≢ EnrollmentStatus.posted =
              λ o x h. ground (arith, waits, x, h) in
            elim (Bool-cases (kyc.status === KycStatus.denied)) [
              | inl h ↦
                  enroll_denied-ShopEffect kyc (some old) r there open_ (ground (arith, waits, h))
              | inr h ↦ elim (Bool-cases (kyc.status === KycStatus.passed)) [
                | inl p ↦
                    enroll_gated-ShopEffect checked kyc.status (some old) r passed there open_
                      (ground (arith, waits, h, p))
                | inr p ↦ audited db.audit (ground (arith, waits, h, p))
              ]
            ]
      ]

-- What an enrollment that returns has changed.
pub enroll_product-ShopEffect :
    (draws : ShopDraws) (db : Db) {after : Db} (customer_id product_id : String)
    (checked : List String) (r : ToolResult)
    → enroll_product draws db customer_id product_id checked ≡ some (r, after)
    → ShopEffect db after
unfolding enroll_product
enroll_product-ShopEffect draws db {after} customer_id product_id checked r e =
    elim (Bool-cases (customer_id === shop_customer_id)) [
      | inr other ↦ absurd (cc (e, other))
      | inl same ↦ elim (Option-cases (find (product_by_id product_id) products)) [
        | inl unknown ↦ absurd (ground (arith, same, unknown))
        | inr (product, known) ↦
            enroll_known-ShopEffect draws db product product_id known checked
              (get_kyc db shop_customer_id) (existing_attempt db product) r (get_kyc-IsPassed db)
              refl (ground (arith, same, known, ===_of_ne customer_id shop_customer_id))
      ]
    ]
