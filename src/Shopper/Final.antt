-- ===== src/Shopper/Final.antt =====
-- packages/core/src/shopper.ts, `enrollProduct`: when an enrollment succeeds, and that a completed
-- one is final.
use agentic_bank.Common.{
  ◌≡◌, ◌≢◌, ◌⊎◌, inl, inr, refl, sym, ap, true, false, Option, none, some, List, [], ◌∷◌, ◌++◌,
  String, string_eq, option_eq, ◌===◌, find, arith, >>=-some, Bool-cases, Option-cases, ===_of_eq,
  find-append, find-update,
}
use agentic_bank.Store.{AuditRow, Db, ToolResult}
use agentic_bank.Store.Shop.{
  KycStatus, Enrollment, EnrollmentStatus, kyc_status_eq, enrollment_status_eq,
}
use agentic_bank.Audit.{write_audit}
use agentic_bank.Audit.Log.{write_audit-grows}
use agentic_bank.Policy.{copy_posted}
use agentic_bank.Kyc.{KycView, missing_labels, get_kyc}
use agentic_bank.Shopper.{
  ShopDraws, shop_customer_id, insert_attempt, update_attempt, attempt_row, posted_attempt,
  complete_enrollment, complete_audit, completed, enroll_denied, documents_incomplete,
  incomplete_audit, required_audit, kyc_stop, copy_kyc_required, docs_for_gate, enroll_gated,
  enroll_known, replay_completed, existing_attempt, enroll_product, has_shop_key, attempt_by_id,
}
use agentic_bank.Shopper.Products.{ShopProduct, products, product_by_id}

-- The table holds a completed attempt for the product, with this audit row.
abbrev pub HoldsCompleted : Db → ShopProduct → String → Type 0
HoldsCompleted db product audit_id =
    (a : Enrollment) × (existing_attempt db product ≡ some a)
    × (a.status ≡ EnrollmentStatus.posted)
    × (a.audit_id ≡ audit_id)

module _ (draws : ShopDraws) (db : Db) {after : Db} (product : ShopProduct) where
  inserted-HoldsCompleted :
      (rows : List AuditRow) (documents : List String) (audit_id : String)
      → existing_attempt db product ≡ none
      → insert_attempt
          (record db { audit = rows })
          (attempt_row draws shop_customer_id product documents EnrollmentStatus.posted copy_posted
            audit_id)
        ≡ some after
      → HoldsCompleted after product audit_id
  unfolding insert_attempt existing_attempt attempt_row find
  inserted-HoldsCompleted rows documents audit_id nothing e =
      let row : Enrollment =
        attempt_row draws shop_customer_id product documents EnrollmentStatus.posted copy_posted
          audit_id in
      let same : after.enrollment_attempts ≡ db.enrollment_attempts ++ row ∷ [] = ground arith in
      (
        row,
        rw same (
            rw
              (find-append (has_shop_key product.idempotency_key) db.enrollment_attempts (row ∷ []))
              (ground (
                arith,
                nothing,
                ===_of_eq ⦃e = option_eq⦄ (some product.idempotency_key)
                    (some product.idempotency_key) refl,
              ))),
        refl,
        refl,
      )

  updated-HoldsCompleted :
      (rows : List AuditRow) (old : Enrollment) (documents : List String) (audit_id : String)
      → existing_attempt db product ≡ some old
      → after
        ≡ update_attempt old.id (posted_attempt documents audit_id) (record db { audit = rows })
      → HoldsCompleted after product audit_id
  unfolding update_attempt existing_attempt posted_attempt
  updated-HoldsCompleted rows old documents audit_id found e = (
    posted_attempt documents audit_id old,
    rw (
      e,
      find-update (has_shop_key product.idempotency_key) (attempt_by_id old.id)
          (posted_attempt documents audit_id) db.enrollment_attempts (λ x. refl),
      found,
      ===_of_eq old.id old.id refl,
    ),
    refl,
    refl,
  )

  complete-HoldsCompleted :
      (documents : List String) (existing : Option Enrollment) (r : ToolResult)
      → existing_attempt db product ≡ existing
      → complete_enrollment draws db shop_customer_id product documents existing ≡ some (r, after)
      → (r.ok ≡ true) × HoldsCompleted after product r.audit_id
  unfolding complete_enrollment
  complete-HoldsCompleted documents none r there e =
      let ((row, d1), w, e1) =
        >>=-some (write_audit db (complete_audit product documents) draws.audit_uuid draws.audit_at)
          _ e in
      let ((rows, g), _) = write_audit-grows db _ _ _ row w in
      let (d2, i, last) =
        >>=-some
          (insert_attempt d1 (
            attempt_row draws shop_customer_id product documents EnrollmentStatus.posted copy_posted
              row.audit_id))
          _ e1 in
      let answer : completed product row draws.attempt_uuid ≡ r = cc last in
      (
        sym (ap (λ (x : ToolResult). x.ok) answer),
        rw (sym answer) (
            inserted-HoldsCompleted (db.audit ++ rows) documents row.audit_id there
              (cc (g, i, last))),
      )
  complete-HoldsCompleted documents (some old) r there e =
      let ((row, d1), w, last) =
        >>=-some (write_audit db (complete_audit product documents) draws.audit_uuid draws.audit_at)
          _ e in
      let ((rows, g), _) = write_audit-grows db _ _ _ row w in
      let answer : completed product row old.id ≡ r = cc last in
      (
        sym (ap (λ (x : ToolResult). x.ok) answer),
        rw (sym answer) (
            updated-HoldsCompleted (db.audit ++ rows) old documents row.audit_id there
              (cc (g, last))),
      )

  -- The refusals are not successful.
  stop-refuses :
      (checked : List String) (r : ToolResult)
      → kyc_stop draws db shop_customer_id product checked ≡ some (r, after)
      → r.ok ≡ false
  unfolding kyc_stop
  stop-refuses checked r e =
      let ((row, d1), w, e1) =
        >>=-some (write_audit db (required_audit product checked) draws.audit_uuid draws.audit_at) _
          e in
      let (d2, i, last) =
        >>=-some
          (insert_attempt d1 (
            attempt_row draws shop_customer_id product checked EnrollmentStatus.kyc_required
              copy_kyc_required row.audit_id))
          _ e1 in
      ground (arith, last)

  incomplete-refuses :
      (checked missing : List String) (r : ToolResult)
      → documents_incomplete draws db product checked missing ≡ some (r, after)
      → r.ok ≡ false
  unfolding documents_incomplete
  incomplete-refuses checked missing r e =
      let ((row, d1), w, last) =
        >>=-some
          (write_audit db (incomplete_audit product checked missing) draws.audit_uuid
            draws.audit_at)
          _ e in
      ground (arith, last)

-- When the call succeeds: after a completed attempt, or with a passed check and all documents.
abbrev pub MayComplete : ShopProduct → List String → KycStatus → Option Enrollment → Type 0
MayComplete product checked kyc existing =
    ((a : Enrollment) × (existing ≡ some a) × (a.status ≡ EnrollmentStatus.posted))
    ⊎ ((kyc ≡ KycStatus.passed)
        × (missing_labels product.documents (docs_for_gate checked existing) ≡ []))

-- What an answer says.
abbrev pub Answers :
    Db → ShopProduct → ToolResult → List String → KycStatus → Option Enrollment → Type 0
Answers after product r checked kyc existing =
    ((r.ok ≡ true)
      × MayComplete product checked kyc existing
      × HoldsCompleted after product r.audit_id)
    ⊎ ((r.ok ≡ false) × ¬ MayComplete product checked kyc existing)

module _ (draws : ShopDraws) (db : Db) {after : Db} (product : ShopProduct)
    (checked : List String) where
  enroll_gated-Answers :
      (kyc : KycStatus) (existing : Option Enrollment) (r : ToolResult)
      → existing_attempt db product ≡ existing
      → ((old : Enrollment) → existing ≡ some old → old.status ≢ EnrollmentStatus.posted)
      → enroll_gated draws db shop_customer_id product checked kyc existing ≡ some (r, after)
      → Answers after product r checked kyc existing
  unfolding enroll_gated
  enroll_gated-Answers kyc existing r there open_ e =
      by_missing (missing_labels product.documents (docs_for_gate checked existing)) refl
    where
      by_missing :
          (labels : List String)
          → missing_labels product.documents (docs_for_gate checked existing) ≡ labels
          → Answers after product r checked kyc existing
      by_missing (label ∷ labels) missing = inr (
        incomplete-refuses draws db {after = after} product checked (label ∷ labels) r
            (ground (arith, missing)),
        λ h. elim h [
          | inl (a, known, posted) ↦ open_ a known posted
          | inr (_, full) ↦ absurd (cc (full, missing))
        ],
      )
      by_missing [] full = elim (Bool-cases (kyc === KycStatus.passed)) [
        | inl h ↦
            let (ok, holds) =
              complete-HoldsCompleted draws db product (docs_for_gate checked existing) existing r
                there (ground (arith, full, h)) in
            inl (ok, inr (ground (arith, h), full), holds)
        | inr h ↦ inr (
          stop-refuses draws db {after = after} product checked r (ground (arith, full, h)),
          λ m. elim m [
            | inl (a, known, posted) ↦ open_ a known posted
            | inr (passed, _) ↦ cc (h, ===_of_eq kyc KycStatus.passed passed)
          ],
        )
      ]

  enroll_known-Answers :
      (kyc : KycView) (existing : Option Enrollment) (r : ToolResult)
      → existing_attempt db product ≡ existing
      → enroll_known draws db shop_customer_id product checked kyc existing ≡ some (r, after)
      → Answers after product r checked kyc.status existing
  unfolding enroll_known enroll_denied
  enroll_known-Answers kyc none r there e = elim (Bool-cases (kyc.status === KycStatus.denied)) [
    | inl h ↦ inr (
      ground (arith, h),
      λ m. elim m [
        | inl (a, known, _) ↦ absurd (cc known)
        | inr (passed, _) ↦ ground (arith, h, passed)
      ],
    )
    | inr h ↦
        enroll_gated-Answers kyc.status none r there (λ old x. absurd (cc)) (ground (arith, h))
  ]
  enroll_known-Answers kyc (some old) r there e =
      elim (Bool-cases (old.status === EnrollmentStatus.posted)) [
        | inl done ↦
            let same : after ≡ db = ground (arith, done) in
            let posted : old.status ≡ EnrollmentStatus.posted = ground (arith, done) in
            inl (
              ground (arith, done),
              inl (old, refl, posted),
              (old, rw same there, posted, ground (arith, done)),
            )
        | inr waits ↦
            let open_ : (o : Enrollment) → some old ≡ some o → o.status ≢ EnrollmentStatus.posted =
              λ o x h. ground (arith, waits, x, h) in
            elim (Bool-cases (kyc.status === KycStatus.denied)) [
              | inl h ↦ inr (
                ground (arith, waits, h),
                λ m. elim m [
                  | inl (a, known, posted) ↦ open_ a known posted
                  | inr (passed, _) ↦ ground (arith, h, passed)
                ],
              )
              | inr h ↦ elim (Bool-cases (kyc.status === KycStatus.passed)) [
                | inl p ↦
                    enroll_gated-Answers kyc.status (some old) r there open_
                      (ground (arith, waits, h, p))
                | inr p ↦ inr (
                  ground (arith, waits, h, p),
                  λ m. elim m [
                    | inl (a, known, posted) ↦ open_ a known posted
                    | inr (passed, _) ↦ ground (arith, p, passed)
                  ],
                )
              ]
            ]
      ]

-- The product that a call is about.
product-of-enroll :
    (draws : ShopDraws) (db : Db) {after : Db} (customer_id product_id : String)
    (checked : List String) (r : ToolResult)
    → enroll_product draws db customer_id product_id checked ≡ some (r, after)
    → (customer_id ≡ shop_customer_id)
      × ((product : ShopProduct) × (find (product_by_id product_id) products ≡ some product)
          × (enroll_known draws db shop_customer_id product checked
                (get_kyc db shop_customer_id)
                (existing_attempt db product)
              ≡ some (r, after)))
unfolding enroll_product
product-of-enroll draws db {after} customer_id product_id checked r e =
    elim (Bool-cases (customer_id === shop_customer_id)) [
      | inr other ↦ absurd (cc (e, other))
      | inl same ↦ elim (Option-cases (find (product_by_id product_id) products)) [
        | inl unknown ↦ absurd (ground (arith, same, unknown))
        | inr (product, known) ↦
            let of : customer_id ≡ shop_customer_id = ground (arith, same) in
            (of, (product, known, ground (arith, same, known, of)))
      ]
    ]

-- An enrollment that returns succeeds exactly when its attempt was completed before, or the check
-- is passed and no document of the product is missing from those of the call or, if it brings
-- none, of the attempt; a success leaves the completed attempt with the audit id of the answer.
pub enroll_product-Answers :
    (draws : ShopDraws) (db : Db) (after : Db) (customer_id product_id : String)
    (checked : List String) (r : ToolResult)
    → enroll_product draws db customer_id product_id checked ≡ some (r, after)
    → (product : ShopProduct) × (find (product_by_id product_id) products ≡ some product)
      × Answers after product r checked
          (get_kyc db shop_customer_id).status
          (existing_attempt db product)
enroll_product-Answers draws db after customer_id product_id checked r e =
    let (_, (product, known, run)) =
      product-of-enroll draws db customer_id product_id checked r e in
    (
      product,
      known,
      enroll_known-Answers draws db product checked (get_kyc db shop_customer_id)
          (existing_attempt db product) r refl run,
    )

pub replays_completed :
    (draws : ShopDraws) (db : Db) (product : ShopProduct) (product_id audit_id : String)
    (checked : List String)
    → find (product_by_id product_id) products ≡ some product
    → HoldsCompleted db product audit_id
    → (r : ToolResult) × (enroll_product draws db shop_customer_id product_id checked
        ≡ some (r, db))
      × (r.ok ≡ true)
      × (r.audit_id ≡ audit_id)
unfolding enroll_product enroll_known replay_completed
replays_completed draws db product product_id audit_id checked known (a, there, posted, same) =
    (replay_completed product.id a, ground (arith, known, there, posted), refl, same)

-- After an enrollment that succeeds its product has a completed attempt with the audit id of the
-- answer.
pub enroll_product-HoldsCompleted :
    (draws : ShopDraws) (db after : Db) (customer_id product_id : String) (checked : List String)
    (r : ToolResult)
    → enroll_product draws db customer_id product_id checked ≡ some (r, after)
    → r.ok ≡ true
    → (customer_id ≡ shop_customer_id)
      × ((product : ShopProduct) × (find (product_by_id product_id) products ≡ some product)
          × HoldsCompleted after product r.audit_id)
enroll_product-HoldsCompleted draws db after customer_id product_id checked r e ok =
    let (of, (product, known, run)) =
      product-of-enroll draws db customer_id product_id checked r e in
    let holds : HoldsCompleted after product r.audit_id =
      elim (enroll_known-Answers draws db product checked (get_kyc db shop_customer_id)
        (existing_attempt db product) r refl run) [
          | inl (_, _, holds) ↦ holds
          | inr (refused, _) ↦ absurd (cc (ok, refused))
        ] in
    (of, (product, known, holds))
