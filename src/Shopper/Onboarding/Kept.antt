-- ===== src/Shopper/Onboarding/Kept.antt =====
-- packages/core/src/kyc.ts and packages/core/src/shopper.ts together: what is final.
use agentic_bank.Common.{
  find-All, ◌≡◌, ◌≢◌, inl, inr, sym, ap, Bool, true, some, List, [], ◌∷◌, ◌++◌, String, string_eq,
  ◌===◌, find, arith, Bool-cases, ===_of_eq, ===_of_ne, find_holds, find-append, find-update,
}
use agentic_bank.Store.{AuditRow, Db}
use agentic_bank.Store.Shop.{KycCase, Enrollment, EnrollmentStatus}
use agentic_bank.Kyc.{read_case, is_settled, kyc_customer_id}
use agentic_bank.Kyc.Recorded.{KycEffect, audited, resolved, submit_kyc-KycEffect}
use agentic_bank.Shopper.{
  attempt_by_id, insert_attempt, update_attempt, existing_attempt, has_shop_key,
}
use agentic_bank.Shopper.Recorded.{ShopEffect, inserted, updated, enroll_product-ShopEffect}
use agentic_bank.Shopper.Onboarding.{
  OnboardingStep, submits, enrolls, elsewhere, OnboardingReach, here, next, HasDistinctIds,
  IsOnboarded,
}
use agentic_bank.Shopper.Onboarding.Steps.{KycEffect-attempts, OnboardingReach-IsOnboarded}

-- A decided check and the completed attempts of one database in another.
pub record KeepsFinal (db after : Db) : Type 0 where
  pub check :
      (c : KycCase)
      → read_case db kyc_customer_id ≡ some c
      → is_settled c.status ≡ true
      → read_case after kyc_customer_id ≡ some c
  pub completions :
      (i : String) (a : Enrollment)
      → find (attempt_by_id i) db.enrollment_attempts ≡ some a
      → a.status ≡ EnrollmentStatus.posted
      → find (attempt_by_id i) after.enrollment_attempts ≡ some a

-- With distinct ids a row is found by its id.
pub found_by_id :
    (q : Enrollment → Bool) (as_ : List Enrollment) (old : Enrollment)
    → HasDistinctIds as_
    → find q as_ ≡ some old
    → find (attempt_by_id old.id) as_ ≡ some old
unfolding find
found_by_id q [] old d e = cc e
found_by_id q (a ∷ as_) old d e = elim (Bool-cases (q a)) [
  | inl hit ↦
      let same : a ≡ old = ground (arith, hit) in
      rw (===_of_eq a.id old.id (ap (λ (x : Enrollment). x.id) same)) (ap some same)
  | inr miss ↦
      let rest : find q as_ ≡ some old = ground (arith, miss) in
      let other : old.id ≢ a.id = find-All (λ (b : Enrollment). b.id ≢ a.id) q as_ old d.0 rest in
      rw (===_of_ne a.id old.id (λ x. other (sym x))) (found_by_id q as_ old d.1 rest)
]

KycEffect-check :
    {db after : Db} (c : KycCase)
    → KycEffect db after
    → read_case db kyc_customer_id ≡ some c
    → is_settled c.status ≡ true
    → read_case after kyc_customer_id ≡ some c
unfolding read_case
KycEffect-check c (audited rows grown) found settled = rw grown found
KycEffect-check c (resolved rows row of open_ s u) found settled =
    absurd (cc (open_ c found, settled))

ShopEffect-cases : {db after : Db} → ShopEffect db after → after.kyc_cases ≡ db.kyc_cases
unfolding insert_attempt update_attempt
ShopEffect-cases (ShopEffect.audited rows grown) = rw grown
ShopEffect-cases (inserted rows product draws documents status copy audit_id i known hold e) =
    ground arith
ShopEffect-cases (updated rows product old new f i known found open_ to same_id of key hold e) =
    rw e

-- An INSERT keeps the first row of a kind.
pub inserted-kept :
    (db after : Db) (rows : List AuditRow) (new : Enrollment) (q : Enrollment → Bool)
    (a : Enrollment)
    → insert_attempt (record db { audit = rows }) new ≡ some after
    → find q db.enrollment_attempts ≡ some a
    → find q after.enrollment_attempts ≡ some a
unfolding insert_attempt
inserted-kept db after rows new q a e there =
    let same : after.enrollment_attempts ≡ db.enrollment_attempts ++ new ∷ [] = ground arith in
    rw (same, find-append q db.enrollment_attempts (new ∷ []), there)

ShopEffect-completions :
    {db after : Db} (i : String) (a : Enrollment)
    → HasDistinctIds db.enrollment_attempts
    → ShopEffect db after
    → find (attempt_by_id i) db.enrollment_attempts ≡ some a
    → a.status ≡ EnrollmentStatus.posted
    → find (attempt_by_id i) after.enrollment_attempts ≡ some a
unfolding update_attempt existing_attempt
ShopEffect-completions i a d (ShopEffect.audited rows grown) there posted = rw grown there
ShopEffect-completions {db} {after} i a d
      (inserted rows product draws documents status copy audit_id p known hold e) there posted =
    inserted-kept db after rows _ (attempt_by_id i) a e there
ShopEffect-completions {db} {after} i a d
      (updated rows product old new f p known found open_ to same_id of key hold e) there posted =
    let hit : a.id ≡ i =
      ground (arith, find_holds (attempt_by_id i) db.enrollment_attempts a there) in
    let q = has_shop_key product.idempotency_key in
    let by_id = found_by_id q db.enrollment_attempts old d found in
    let other : a.id ≢ old.id =
      λ x. let same : a ≡ old = cc (there, by_id, hit, x) in open_ (rw (← same) posted) in
    rw (
      e,
      find-update (attempt_by_id i) (attempt_by_id old.id) f db.enrollment_attempts
          (λ x. ap (λ (k : String). k === i) (same_id x)),
      there,
      ===_of_ne a.id old.id other,
    )

OnboardingStep-KeepsFinal :
    {db after : Db} → IsOnboarded db → OnboardingStep db after → KeepsFinal db after
unfolding read_case
OnboardingStep-KeepsFinal {db} h (submits draws c input r e) =
    let s = submit_kyc-KycEffect draws db input c r e in
    record {
      check = λ k found settled. KycEffect-check k s found settled;
      completions = λ i a there posted. rw (KycEffect-attempts s) there;
    }
OnboardingStep-KeepsFinal {db} h (enrolls draws c i checked r e) =
    let s = enroll_product-ShopEffect draws db c i checked r e in
    record {
      check = λ k found settled. rw (ShopEffect-cases s) found;
      completions = λ j a there posted. ShopEffect-completions j a h.distinct s there posted;
    }
OnboardingStep-KeepsFinal h (elsewhere rest e) = record {
  check = λ k found settled. rw e found;
  completions = λ i a there posted. rw e there;
}

-- Over every history from an onboarded state a decided check keeps its row, and a completed
-- attempt is found unchanged under its id.
pub OnboardingReach-KeepsFinal :
    {db after : Db} → IsOnboarded db → OnboardingReach db after → KeepsFinal db after
OnboardingReach-KeepsFinal h here = record {
  check = λ k found settled. found;
  completions = λ i a there posted. there;
}
OnboardingReach-KeepsFinal h (next before step) =
    let past = OnboardingReach-KeepsFinal h before in
    let last = OnboardingStep-KeepsFinal (OnboardingReach-IsOnboarded h before) step in
    record {
      check = λ k found settled. last.check k (past.check k found settled) settled;
      completions =
          λ i a there posted. last.completions i a (past.completions i a there posted) posted;
    }
