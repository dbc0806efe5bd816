-- ===== src/Shopper/Onboarding/Final.antt =====
-- packages/core/src/shopper.ts: a product that has been enrolled stays enrolled, over all that
-- happens to the check and to the enrollments.
use agentic_bank.Common.{
  ◌≡◌, ◌≢◌, ◌∙◌, ap, sym, Bool, true, some, List, [], ◌∷◌, String, string_eq, option_eq, find,
  update, arith, Bool-cases, inl, inr,
}
use agentic_bank.Store.{Db, ToolResult}
use agentic_bank.Store.Shop.{Enrollment}
use agentic_bank.Kyc.Recorded.{submit_kyc-KycEffect}
use agentic_bank.Shopper.{
  ShopDraws, attempt_by_id, insert_attempt, update_attempt, existing_attempt, has_shop_key,
  enroll_product,
}
use agentic_bank.Shopper.Products.{ShopProduct}
use agentic_bank.Shopper.Recorded.{ShopEffect, inserted, updated, enroll_product-ShopEffect}
use agentic_bank.Shopper.Final.{HoldsCompleted, enroll_product-HoldsCompleted, replays_completed}
use agentic_bank.Shopper.Onboarding.{
  OnboardingStep, submits, enrolls, elsewhere, OnboardingReach, here, next, HasDistinctIds,
  IsOnboarded, update-unused,
}
use agentic_bank.Shopper.Onboarding.Steps.{KycEffect-attempts, OnboardingReach-IsOnboarded}
use agentic_bank.Shopper.Onboarding.Kept.{found_by_id, inserted-kept}

-- The first row of a kind stays the first when another row is updated that stays of its kind.
find_kept :
    (q : Enrollment → Bool) (f : Enrollment → Enrollment) (as_ : List Enrollment)
    (old a : Enrollment)
    → HasDistinctIds as_
    → find (attempt_by_id old.id) as_ ≡ some old
    → q (f old) ≡ q old
    → a ≢ old
    → find q as_ ≡ some a
    → find q (update (attempt_by_id old.id) f as_) ≡ some a
unfolding find update
find_kept q f [] old a d by_id same other e = cc e
find_kept q f (x ∷ as_) old a d by_id same other e = elim (Bool-cases (attempt_by_id old.id x)) [
  | inl hit ↦
      let is_old : x ≡ old = ground (arith, hit) in
      let fresh : update (attempt_by_id old.id) f as_ ≡ as_ =
        rw (← is_old) (update-unused f x.id as_ d.0) in
      elim (Bool-cases (q x)) [
        | inl is_a ↦ let found : x ≡ a = ground (arith, is_a) in absurd (other (sym found ∙ is_old))
        | inr not_a ↦
            rw (hit, fresh)
              (ground (arith, hit, not_a, ap q is_old, ap (λ (y : Enrollment). q (f y)) is_old))
      ]
  | inr miss ↦ elim (Bool-cases (q x)) [
    | inl is_a ↦ ground (arith, miss, is_a)
    | inr not_a ↦
        let rest =
          find_kept q f as_ old a d.1 (ground (arith, miss)) same other (ground (arith, not_a)) in
        ground (arith, miss, not_a, rest)
  ]
]

ShopEffect-HoldsCompleted :
    {db after : Db} (product : ShopProduct) (audit_id : String)
    → HasDistinctIds db.enrollment_attempts
    → ShopEffect db after
    → HoldsCompleted db product audit_id
    → HoldsCompleted after product audit_id
unfolding existing_attempt insert_attempt update_attempt
ShopEffect-HoldsCompleted product audit_id d (ShopEffect.audited rows grown)
      (a, there, posted, same) =
    (a, rw grown there, posted, same)
ShopEffect-HoldsCompleted {db} {after} product audit_id d
      (inserted rows p draws documents status copy audit_id' i known hold e)
      (a, there, posted, same) =
    (
      a,
      inserted-kept db after rows _ (has_shop_key product.idempotency_key) a e there,
      posted,
      same,
    )
ShopEffect-HoldsCompleted {db} {after} product audit_id d
      (updated rows p old new f i known found open_ to same_id of key hold e)
      (a, there, posted, same) =
    let q = has_shop_key product.idempotency_key in
    let by_id = found_by_id (has_shop_key p.idempotency_key) db.enrollment_attempts old d found in
    let keys : (f old).idempotency_key ≡ old.idempotency_key =
      ap (λ (x : Enrollment). x.idempotency_key) to ∙ key in
    (
      a,
      rw e (
          find_kept q f db.enrollment_attempts old a d by_id (rw keys)
            (λ x. open_ (rw (← x) posted)) there),
      posted,
      same,
    )

OnboardingStep-HoldsCompleted :
    {db after : Db} (product : ShopProduct) (audit_id : String)
    → IsOnboarded db
    → OnboardingStep db after
    → HoldsCompleted db product audit_id
    → HoldsCompleted after product audit_id
unfolding existing_attempt
OnboardingStep-HoldsCompleted {db} product audit_id h (submits draws c input r e)
      (a, there, posted, same) =
    (a, rw (KycEffect-attempts (submit_kyc-KycEffect draws db input c r e)) there, posted, same)
OnboardingStep-HoldsCompleted {db} product audit_id h (enrolls draws c i checked r e) holds =
    ShopEffect-HoldsCompleted product audit_id h.distinct
      (enroll_product-ShopEffect draws db c i checked r e) holds
OnboardingStep-HoldsCompleted product audit_id h (elsewhere other e) (a, there, posted, same) =
    (a, rw e there, posted, same)

OnboardingReach-HoldsCompleted :
    {db after : Db} (product : ShopProduct) (audit_id : String)
    → IsOnboarded db
    → OnboardingReach db after
    → HoldsCompleted db product audit_id
    → HoldsCompleted after product audit_id
OnboardingReach-HoldsCompleted product audit_id h here holds = holds
OnboardingReach-HoldsCompleted product audit_id h (next before step) holds =
    OnboardingStep-HoldsCompleted product audit_id (OnboardingReach-IsOnboarded h before) step
      (OnboardingReach-HoldsCompleted product audit_id h before holds)

-- After an enrollment that succeeds on an onboarded state, and any history of submissions,
-- enrollments and changes of other tables after it, an enrollment of the same customer for the same
-- product, with whatever documents, succeeds with the same audit id and changes nothing.
pub enroll_product-final :
    (draws later : ShopDraws) {db after last : Db} (customer_id product_id : String)
    (checked checked_later : List String) (r : ToolResult)
    → IsOnboarded db
    → enroll_product draws db customer_id product_id checked ≡ some (r, after)
    → r.ok ≡ true
    → OnboardingReach after last
    → (again : ToolResult) × (enroll_product later last customer_id product_id checked_later
        ≡ some (again, last))
      × (again.ok ≡ true)
      × (again.audit_id ≡ r.audit_id)
enroll_product-final draws later {db} {after} {last} customer_id product_id checked checked_later r
      onboarded e ok history =
    let (of, (product, known, holds)) =
      enroll_product-HoldsCompleted draws db after customer_id product_id checked r e ok in
    let first =
      OnboardingReach-IsOnboarded onboarded
        (next here (enrolls draws customer_id product_id checked r e)) in
    rw of (
      replays_completed later last product product_id r.audit_id checked_later known
        (OnboardingReach-HoldsCompleted product r.audit_id first history holds))
