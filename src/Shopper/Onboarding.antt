-- ===== src/Shopper/Onboarding.antt =====
-- packages/core/src/kyc.ts and packages/core/src/shopper.ts together: the histories of the
-- customer's identity check and of the enrollments.
pub mod Steps
pub mod Kept
pub mod Final
use agentic_bank.Common.{
  ℕ, ◌≡◌, ◌≢◌, ◌⊎◌, inl, inr, refl, sym, ap, ◌∙◌, Bool, true, false, Option, none, some, List, [],
  ◌∷◌, ◌++◌, String, string_eq, option_eq, ◌===◌, if◌then◌else◌, find, update, All, All-append,
  All-map, arith, Bool-cases, Option-cases, ===_of_eq, ===_of_ne, find_holds, is_some, find-append,
  find-All,
}
use agentic_bank.Store.{Db, ToolResult}
use agentic_bank.Store.Shop.{KycCase, Enrollment, EnrollmentStatus}
use agentic_bank.Kyc.{KycDraws, KycSubmitInput, submit_kyc, is_of, missing_labels}
use agentic_bank.Kyc.Recorded.{IsSyntheticCase}
use agentic_bank.Shopper.{ShopDraws, shop_customer_id, enroll_product, attempt_by_id}
use agentic_bank.Shopper.Products.{ShopProduct, products}
use agentic_bank.Shopper.Recorded.{IsPassed}

-- The tables of the two modules of one database beside the other tables of another.
abbrev pub with_onboarding : Db → Db → Db
with_onboarding db rest = record rest {
  kyc_cases = db.kyc_cases;
  enrollment_attempts = db.enrollment_attempts;
}

-- A submission, an enrollment, or any change of the other tables.
pub data OnboardingStep (db after : Db) : Type 0 where
  submits :
      (draws : KycDraws) (customer_id : String) (input : KycSubmitInput) (r : ToolResult)
      → submit_kyc draws db customer_id input ≡ some (r, after)
      → OnboardingStep db after
  enrolls :
      (draws : ShopDraws) (customer_id product_id : String) (checked : List String) (r : ToolResult)
      → enroll_product draws db customer_id product_id checked ≡ some (r, after)
      → OnboardingStep db after
  elsewhere : (rest : Db) → after ≡ with_onboarding db rest → OnboardingStep db after

pub data OnboardingReach (db : Db) : Db → Type 0 where
  here : OnboardingReach db db
  next :
      {middle after : Db}
      → OnboardingReach db middle
      → OnboardingStep middle after
      → OnboardingReach db after

abbrev pub product_by_key : Option String → ShopProduct → Bool
product_by_key key p = some p.idempotency_key === key

-- A completed attempt belongs to a product whose documents it holds, and its customer has passed
-- the check.
abbrev pub IsCovered : Db → Enrollment → Type 0
IsCovered db a =
    a.status ≡ EnrollmentStatus.posted
    → IsPassed db
      × ((p : ShopProduct) × (find (product_by_key a.idempotency_key) products ≡ some p)
          × (missing_labels p.documents a.documents ≡ []))

abbrev pub HasDistinctIds : List Enrollment → Type 0
HasDistinctIds [] = Unit
HasDistinctIds (a ∷ as_) = All (λ (b : Enrollment). b.id ≢ a.id) as_ × HasDistinctIds as_

pub record IsOnboarded (db : Db) : Type 0 where
  pub cases : All IsSyntheticCase db.kyc_cases
  pub attempts : All (IsCovered db) db.enrollment_attempts
  pub distinct : HasDistinctIds db.enrollment_attempts
  pub of_customer :
      All (λ (a : Enrollment). a.customer_id ≡ shop_customer_id) db.enrollment_attempts

module _ (f : Enrollment → Enrollment) where
  -- An UPDATE by an id that is not in use changes nothing.
  pub update-unused :
      (i : String) (as_ : List Enrollment)
      → All (λ (b : Enrollment). b.id ≢ i) as_
      → update (attempt_by_id i) f as_ ≡ as_
  unfolding update
  update-unused i [] h = refl
  update-unused i (a ∷ as_) h = rw (===_of_ne a.id i h.0, update-unused i as_ h.1)

-- A property of all rows after an UPDATE of the one row that a lookup has found.
pub All-update_found {ℓ} :
    (P : Enrollment → Type ℓ) (q : Enrollment → Bool) (f : Enrollment → Enrollment)
    (as_ : List Enrollment) (old : Enrollment)
    → HasDistinctIds as_
    → find q as_ ≡ some old
    → P (f old)
    → All P as_
    → All P (update (attempt_by_id old.id) f as_)
unfolding find update
All-update_found P q f [] old d e new h = tt
All-update_found P q f (a ∷ as_) old d e new h = elim (Bool-cases (q a)) [
  | inl hit ↦
      let same : a ≡ old = ground (arith, hit) in
      rw (===_of_eq a.id old.id (ap (λ (x : Enrollment). x.id) same), same)
        (new, rw (update-unused f old.id as_ (rw (← same) d.0)) h.1)
  | inr miss ↦
      let rest : find q as_ ≡ some old = ground (arith, miss) in
      let other : old.id ≢ a.id = find-All (λ (b : Enrollment). b.id ≢ a.id) q as_ old d.0 rest in
      rw (===_of_ne a.id old.id (λ x. other (sym x)))
        (h.0, All-update_found P q f as_ old d.1 rest new h.1)
]

-- UPDATE keeps the ids.
pub HasDistinctIds-update :
    (q : Enrollment → Bool) (f : Enrollment → Enrollment) (as_ : List Enrollment) (old : Enrollment)
    → find q as_ ≡ some old
    → (f old).id ≡ old.id
    → HasDistinctIds as_
    → HasDistinctIds (update (attempt_by_id old.id) f as_)
unfolding find update
HasDistinctIds-update q f [] old e same d = tt
HasDistinctIds-update q f (a ∷ as_) old e same d = elim (Bool-cases (q a)) [
  | inl hit ↦
      let eq : a ≡ old = ground (arith, hit) in
      rw (===_of_eq a.id old.id (ap (λ (x : Enrollment). x.id) eq))
        (rw (update-unused f old.id as_ (rw (← eq) d.0), eq, same) (rw (← eq) d))
  | inr miss ↦
      let rest : find q as_ ≡ some old = ground (arith, miss) in
      let other : old.id ≢ a.id = find-All (λ (b : Enrollment). b.id ≢ a.id) q as_ old d.0 rest in
      rw (===_of_ne a.id old.id (λ x. other (sym x))) (
        All-update_found (λ (b : Enrollment). b.id ≢ a.id) q f as_ old d.1 rest
            (λ x. other (sym same ∙ x)) d.0,
        HasDistinctIds-update q f as_ old rest same d.1,
      )
]

pub HasDistinctIds-append :
    (as_ : List Enrollment) (new : Enrollment)
    → find (attempt_by_id new.id) as_ ≡ none
    → HasDistinctIds as_
    → HasDistinctIds (as_ ++ new ∷ [])
unfolding find
HasDistinctIds-append [] new e d = (tt, tt)
HasDistinctIds-append (a ∷ as_) new e d = elim (Bool-cases (a.id === new.id)) [
  | inl hit ↦ absurd (ground (arith, hit))
  | inr miss ↦ (
    All-append (λ (b : Enrollment). b.id ≢ a.id) as_ (new ∷ []) d.0
        (λ x. cc (miss, ===_of_eq a.id new.id (sym x)), tt),
    HasDistinctIds-append as_ new (ground (arith, miss)) d.1,
  )
]
