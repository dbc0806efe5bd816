-- ===== src/Shopper/Onboarding/Steps.antt =====
-- packages/core/src/kyc.ts and packages/core/src/shopper.ts together: what every history keeps.
use agentic_bank.Common.{
  find-All, ◌≡◌, inl, inr, refl, ◌∙◌, Bool, true, false, none, some, List, [], ◌∷◌, ◌++◌, String,
  String_discrete, Option_discrete, string_eq, option_eq, if◌then◌else◌, find, update, All,
  All-append, All-map, arith, Bool-cases, find_holds, is_some,
}
use mathlib.Core.Path.{subst}
use agentic_bank.Store.{AuditRow, Db}
use agentic_bank.Store.Shop.{KycCase, Enrollment, EnrollmentStatus}
use agentic_bank.Kyc.{is_of, missing_labels, read_case, upsert_case, updated_case}
use agentic_bank.Kyc.Recorded.{IsSyntheticCase, KycEffect, audited, resolved, submit_kyc-KycEffect}
use agentic_bank.Shopper.{
  ShopDraws, shop_customer_id, attempt_by_id, attempt_row, insert_attempt, update_attempt,
  existing_attempt, has_shop_key,
}
use agentic_bank.Shopper.Products.{
  ShopProduct, products, product_by_id, deposit_product, insurance_product, loan_product,
}
use agentic_bank.Shopper.Recorded.{
  IsPassed, MayHold, not_completed, complete, ShopEffect, inserted, updated,
  enroll_product-ShopEffect,
}
use agentic_bank.Shopper.Onboarding.{
  OnboardingStep, submits, enrolls, elsewhere, OnboardingReach, here, next, product_by_key,
  IsCovered, IsOnboarded, All-update_found, HasDistinctIds-update, HasDistinctIds-append,
}

-- A property of the three products.
products_case :
    (P : ShopProduct → Type 0) (product_id : String) (p : ShopProduct)
    → P deposit_product
    → P insurance_product
    → P loan_product
    → find (product_by_id product_id) products ≡ some p
    → P p
unfolding find
products_case P i p d n l e = elim (Bool-cases (product_by_id i deposit_product)) [
  | inl hit ↦ subst P (ground (arith, hit)) d
  | inr miss ↦ elim (Bool-cases (product_by_id i insurance_product)) [
    | inl hit ↦ subst P (ground (arith, miss, hit)) n
    | inr miss' ↦ subst P (ground (arith, miss, miss')) l
  ]
]

deposit_key :
    find (product_by_key (some deposit_product.idempotency_key)) products ≡ some deposit_product
unfolding find String_discrete Option_discrete
deposit_key = refl

insurance_key :
    find (product_by_key (some insurance_product.idempotency_key)) products ≡ some insurance_product
unfolding find String_discrete Option_discrete
insurance_key = refl

loan_key : find (product_by_key (some loan_product.idempotency_key)) products ≡ some loan_product
unfolding find String_discrete Option_discrete
loan_key = refl

-- The products have different keys.
product_of_key :
    (product_id : String) (p : ShopProduct)
    → find (product_by_id product_id) products ≡ some p
    → find (product_by_key (some p.idempotency_key)) products ≡ some p
product_of_key product_id p e =
    products_case (λ q. find (product_by_key (some q.idempotency_key)) products ≡ some q) product_id
      p deposit_key insurance_key loan_key e

updated_case-IsSyntheticCase :
    (new old : KycCase) → IsSyntheticCase new → IsSyntheticCase (updated_case new old)
unfolding updated_case
updated_case-IsSyntheticCase new old s = record {
  name = s.name;
  phone = s.phone;
  email = s.email;
  id_placeholder = s.id_placeholder;
}

update-IsSyntheticCase :
    (new : KycCase) (cases : List KycCase)
    → IsSyntheticCase new
    → All IsSyntheticCase cases
    → All IsSyntheticCase (update (is_of new.customer_id) (updated_case new) cases)
unfolding update
update-IsSyntheticCase new [] s h = tt
update-IsSyntheticCase new (c ∷ cases) s h =
    (hit (is_of new.customer_id c), update-IsSyntheticCase new cases s h.1)
  where
    hit : (b : Bool) → IsSyntheticCase (if b then updated_case new c else c)
    hit true = updated_case-IsSyntheticCase new c s
    hit false = h.0

-- Once the check is passed, a submission changes the audit table only.
KycEffect-passed :
    {db after : Db} → KycEffect db after → IsPassed db → after.kyc_cases ≡ db.kyc_cases
KycEffect-passed (audited rows grown) p = rw grown
KycEffect-passed (resolved rows row of open_ s u) (c, found, passed) =
    absurd (ground (arith, open_ c found))

KycEffect-IsSynthetic :
    {db after : Db}
    → KycEffect db after
    → All IsSyntheticCase db.kyc_cases
    → All IsSyntheticCase after.kyc_cases
unfolding upsert_case
KycEffect-IsSynthetic (audited rows grown) h = rw grown h
KycEffect-IsSynthetic {db} {after} (resolved rows row of open_ s u) h = upserted u
  where
    upserted :
        upsert_case (record db { audit = rows }) row ≡ some after
        → All IsSyntheticCase after.kyc_cases
    upserted e =
        elim (Bool-cases (is_some (read_case (record db { audit = rows }) row.customer_id))) [
          | inl known ↦
              let same : after.kyc_cases
                  ≡ update (is_of row.customer_id) (updated_case row) db.kyc_cases =
                ground (arith, known) in
              rw same (update-IsSyntheticCase row db.kyc_cases s h)
          | inr new ↦
              let same : after.kyc_cases ≡ db.kyc_cases ++ row ∷ [] = ground (arith, new) in
              rw same (All-append IsSyntheticCase db.kyc_cases (row ∷ []) h (s, tt))
        ]

pub KycEffect-attempts :
    {db after : Db} → KycEffect db after → after.enrollment_attempts ≡ db.enrollment_attempts
unfolding upsert_case
KycEffect-attempts (audited rows grown) = rw grown
KycEffect-attempts (resolved rows row of open_ s u) = ground arith

IsPassed-kept : (db after : Db) → after.kyc_cases ≡ db.kyc_cases → IsPassed db → IsPassed after
unfolding read_case
IsPassed-kept db after same (c, found, passed) = (c, rw same found, passed)

-- Coverage stays when the check stays passed.
IsCovered-kept :
    (db after : Db) (as_ : List Enrollment)
    → (IsPassed db → IsPassed after)
    → All (IsCovered db) as_
    → All (IsCovered after) as_
IsCovered-kept db after as_ keep h =
    All-map (IsCovered db) (IsCovered after) as_ (λ a c posted. (keep (c posted).0, (c posted).1)) h

submits-IsOnboarded : {db after : Db} → KycEffect db after → IsOnboarded db → IsOnboarded after
unfolding read_case
submits-IsOnboarded {db} {after} s h = record {
  cases = KycEffect-IsSynthetic s h.cases;
  attempts = rw (KycEffect-attempts s) (
      IsCovered-kept db after db.enrollment_attempts
        (λ p. IsPassed-kept db after (KycEffect-passed s p) p) h.attempts);
  distinct = rw (KycEffect-attempts s) h.distinct;
  of_customer = rw (KycEffect-attempts s) h.of_customer;
}

-- A new row for a product.
attempt_row-IsCovered :
    (db after : Db) (product : ShopProduct) (draws : ShopDraws) (documents : List String)
    (status : EnrollmentStatus) (copy audit_id product_id : String)
    → find (product_by_id product_id) products ≡ some product
    → MayHold db product status documents
    → (IsPassed db → IsPassed after)
    → IsCovered after (attempt_row draws shop_customer_id product documents status copy audit_id)
unfolding attempt_row
attempt_row-IsCovered db after product draws documents status copy audit_id i known hold keep
      posted =
    covered hold
  where
    covered :
        MayHold db product status documents
        → IsPassed after
          × ((p : ShopProduct) × (find (product_by_key (some product.idempotency_key)) products
                ≡ some p)
              × (missing_labels p.documents documents ≡ []))
    covered (not_completed n) = absurd (n posted)
    covered (complete passed full) = (keep passed, (product, product_of_key i product known, full))

inserted-IsOnboarded :
    {db after : Db} (rows : List AuditRow) (row : Enrollment)
    → insert_attempt (record db { audit = rows }) row ≡ some after
    → IsCovered db row
    → row.customer_id ≡ shop_customer_id
    → IsOnboarded db
    → IsOnboarded after
unfolding insert_attempt read_case
inserted-IsOnboarded {db} {after} rows row e new of h =
    let cases : after.kyc_cases ≡ db.kyc_cases = ground arith in
    let same : after.enrollment_attempts ≡ db.enrollment_attempts ++ row ∷ [] = ground arith in
    let unused : find (attempt_by_id row.id) db.enrollment_attempts ≡ none = ground arith in
    record {
      cases = rw cases h.cases;
      attempts = rw same (
          IsCovered-kept db after _ (IsPassed-kept db after cases)
            (All-append (IsCovered db) db.enrollment_attempts (row ∷ []) h.attempts (new, tt)));
      distinct = rw same (HasDistinctIds-append db.enrollment_attempts row unused h.distinct);
      of_customer = rw same (All-append _ db.enrollment_attempts (row ∷ []) h.of_customer (of, tt));
    }

updated-IsOnboarded :
    {db after : Db} (rows : List AuditRow) (product : ShopProduct) (old : Enrollment)
    (f : Enrollment → Enrollment)
    → existing_attempt db product ≡ some old
    → (f old).id ≡ old.id
    → (f old).customer_id ≡ old.customer_id
    → IsCovered db (f old)
    → after ≡ update_attempt old.id f (record db { audit = rows })
    → IsOnboarded db
    → IsOnboarded after
unfolding update_attempt existing_attempt read_case
updated-IsOnboarded {db} {after} rows product old f found same_id same_customer new e h =
    let q = has_shop_key product.idempotency_key in
    let of : old.customer_id ≡ shop_customer_id =
      find-All (λ (a : Enrollment). a.customer_id ≡ shop_customer_id) q db.enrollment_attempts old
        h.of_customer found in
    rw e (record {
      cases = h.cases;
      attempts =
          All-update_found (IsCovered db) q f db.enrollment_attempts old h.distinct found new
            h.attempts;
      distinct = HasDistinctIds-update q f db.enrollment_attempts old found same_id h.distinct;
      of_customer =
          All-update_found _ q f db.enrollment_attempts old h.distinct found (same_customer ∙ of)
            h.of_customer;
    })

attempt_row-customer :
    (draws : ShopDraws) (product : ShopProduct) (documents : List String)
    (status : EnrollmentStatus) (copy audit_id : String)
    → (attempt_row draws shop_customer_id product documents status copy audit_id).customer_id
      ≡ shop_customer_id
unfolding attempt_row
attempt_row-customer draws product documents status copy audit_id = refl

existing_attempt-key :
    (db : Db) (product : ShopProduct) (old : Enrollment)
    → existing_attempt db product ≡ some old
    → old.idempotency_key ≡ some product.idempotency_key
unfolding existing_attempt
existing_attempt-key db product old found =
    ground
      (arith, find_holds (has_shop_key product.idempotency_key) db.enrollment_attempts old found)

ShopEffect-IsOnboarded : {db after : Db} → ShopEffect db after → IsOnboarded db → IsOnboarded after
unfolding read_case
ShopEffect-IsOnboarded (ShopEffect.audited rows grown) h = rw grown (record {
  cases = h.cases;
  attempts = h.attempts;
  distinct = h.distinct;
  of_customer = h.of_customer;
})
ShopEffect-IsOnboarded {db}
      (inserted rows product draws documents status copy audit_id i known hold e) h =
    inserted-IsOnboarded rows _ e
      (attempt_row-IsCovered db db product draws documents status copy audit_id i known hold
        (λ p. p))
      (attempt_row-customer draws product documents status copy audit_id) h
ShopEffect-IsOnboarded {db}
      (updated rows product old new f i known found open_ to same_id of key hold e) h =
    updated-IsOnboarded rows product old f found (same_id old) (rw to of)
      (rw to (updated_IsCovered hold)) e h
  where
    updated_IsCovered : MayHold db product new.status new.documents → IsCovered db new
    updated_IsCovered (not_completed n) posted = absurd (n posted)
    updated_IsCovered (complete passed full) posted = (
      passed,
      (
        product,
        rw (key ∙ existing_attempt-key db product old found) (product_of_key i product known),
        full,
      ),
    )

OnboardingStep-IsOnboarded :
    {db after : Db} → OnboardingStep db after → IsOnboarded db → IsOnboarded after
unfolding read_case
OnboardingStep-IsOnboarded {db} (submits draws c input r e) h =
    submits-IsOnboarded (submit_kyc-KycEffect draws db input c r e) h
OnboardingStep-IsOnboarded {db} (enrolls draws c i checked r e) h =
    ShopEffect-IsOnboarded (enroll_product-ShopEffect draws db c i checked r e) h
OnboardingStep-IsOnboarded (elsewhere rest e) h = rw e (record {
  cases = h.cases;
  attempts = h.attempts;
  distinct = h.distinct;
  of_customer = h.of_customer;
})

-- Over every history of submissions, enrollments and changes of other tables, every stored case
-- holds synthetic values only, and every completed attempt belongs to a customer who has passed
-- the check and holds all documents of its product; the attempts keep distinct ids.
pub OnboardingReach-IsOnboarded :
    {db after : Db} → IsOnboarded db → OnboardingReach db after → IsOnboarded after
OnboardingReach-IsOnboarded h here = h
OnboardingReach-IsOnboarded h (next before step) =
    OnboardingStep-IsOnboarded step (OnboardingReach-IsOnboarded h before)
