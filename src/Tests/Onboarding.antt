-- ===== src/Tests/Onboarding.antt =====
-- The identity check and an enrollment of the sample customer.
use agentic_bank.Common.{
  ◌≡◌, refl, Option, none, some, true, List, [], ◌∷◌, String, String_discrete, Option_discrete,
  find, select, includes,
}
use agentic_bank.Store.{Db, ToolResult, no_data}
use agentic_bank.Store.Shop.{KycStatus_discrete, EnrollmentStatus_discrete}
use agentic_bank.Store.Types.{Decision, RuleId}
use agentic_bank.Audit.{write_audit, audit_row, get_audit}
use agentic_bank.Kyc.{
  KycDraws, KycSubmitInput, submit_kyc, submit_known, submit_fields, read_case, get_kyc, normalize,
  missing_labels, resolve_case, case_row, upsert_case, replay_result,
}
use agentic_bank.Kyc.Synthetic.{normalize_name, normalize_field, looks_like_real_pii, syn_phone_ok}
use agentic_bank.Shopper.{
  ShopDraws, enroll_product, existing_attempt, enroll_known, enroll_gated, complete_enrollment,
  completed, insert_attempt, attempt_row, docs_for_gate,
}
use agentic_bank.Shopper.Products.{ShopProduct, products, product_by_id}
use agentic_bank.Shopper.Final.{Answers, enroll_product-Answers}
use agentic_bank.Shopper.Onboarding.Final.{enroll_product-final}
use agentic_bank.Shopper.Onboarding.{
  OnboardingReach, here, next, submits, enrolls, elsewhere, IsOnboarded, with_onboarding,
}
use agentic_bank.Shopper.Onboarding.Steps.{OnboardingReach-IsOnboarded}
use agentic_bank.Shopper.Onboarding.Kept.{KeepsFinal, OnboardingReach-KeepsFinal}
use agentic_bank.Tests.{bank}

abbrev shop : Db
shop = record bank { customers = "syn_alice" ∷ [] }

abbrev kyc_draws : KycDraws
kyc_draws = record {
  case_uuid = "c1";
  review_uuid = "a2";
  resolve_uuid = "a3";
  now = 1_000_000_001;
  review_at = 1_000_000_001;
  resolve_at = 1_000_000_002;
}

abbrev papers : KycSubmitInput
papers = record {
  display_name = some "Alice";
  phone = some "syn_phone_7";
  email = none;
  id_placeholder = none;
  acknowledgements = some ("ack_sandbox" ∷ "ack_no_rrn" ∷ "ack_not_bank" ∷ []);
  scenario = none;
}

abbrev shop_draws : ShopDraws
shop_draws = record {
  attempt_uuid = "n1";
  audit_uuid = "a4";
  audit_at = 1_000_000_003;
  now = 1_000_000_003;
}

abbrev documents : List String
documents = "purpose_form" ∷ "id_card" ∷ "resident_copy" ∷ []

abbrev no_answer : ToolResult
no_answer = record {
  ok = true;
  copy = "";
  decision = Decision.allow;
  rule_id = RuleId.allow;
  reason = "";
  audit_id = "";
  blast_radius = none;
  decision_ref = none;
  journal_id = none;
  journal_status = none;
  result_data = no_data;
}

abbrev result_of : Option (ToolResult × Db) → ToolResult
result_of none = no_answer
result_of (some x) = x.0

abbrev db_of : Option (ToolResult × Db) → Db
db_of none = shop
db_of (some x) = x.1

abbrev submission : Option (ToolResult × Db)
submission = submit_kyc kyc_draws shop "syn_alice" papers

abbrev checked_shop : Db
checked_shop = db_of submission

abbrev enrollment : Option (ToolResult × Db)
enrollment = enroll_product shop_draws checked_shop "syn_alice" "prod_deposit_hanbit" documents

submitted : submission ≡ some (result_of submission, checked_shop)
unfolding submit_kyc submit_known submit_fields normalize normalize_name normalize_field
    looks_like_real_pii syn_phone_ok read_case find select includes missing_labels resolve_case
    case_row write_audit get_audit audit_row upsert_case replay_result String_discrete
    KycStatus_discrete
submitted = refl

enrolled : enrollment ≡ some (result_of enrollment, db_of enrollment)
unfolding submit_kyc submit_known submit_fields normalize normalize_name normalize_field
    looks_like_real_pii syn_phone_ok read_case find select includes missing_labels resolve_case
    case_row write_audit get_audit audit_row upsert_case replay_result String_discrete
    KycStatus_discrete enroll_product enroll_known enroll_gated complete_enrollment completed
    insert_attempt attempt_row existing_attempt docs_for_gate get_kyc Option_discrete
    EnrollmentStatus_discrete
enrolled = refl

succeeded : (result_of enrollment).ok ≡ true
unfolding submit_kyc submit_known submit_fields normalize normalize_name normalize_field
    looks_like_real_pii syn_phone_ok read_case find select includes missing_labels resolve_case
    case_row write_audit get_audit audit_row upsert_case replay_result String_discrete
    KycStatus_discrete enroll_product enroll_known enroll_gated complete_enrollment completed
    insert_attempt attempt_row existing_attempt docs_for_gate get_kyc Option_discrete
    EnrollmentStatus_discrete
succeeded = refl

shop-IsOnboarded : IsOnboarded shop
shop-IsOnboarded = record { cases = tt; attempts = tt; distinct = tt; of_customer = tt }

history : OnboardingReach shop (db_of enrollment)
history =
    next (next here (submits kyc_draws "syn_alice" papers (result_of submission) submitted)) (
      enrolls shop_draws "syn_alice" "prod_deposit_hanbit" documents (result_of enrollment)
        enrolled)

OnboardingReach-IsOnboarded_example : IsOnboarded (db_of enrollment)
OnboardingReach-IsOnboarded_example = OnboardingReach-IsOnboarded shop-IsOnboarded history

OnboardingReach-KeepsFinal_example : KeepsFinal shop (db_of enrollment)
OnboardingReach-KeepsFinal_example = OnboardingReach-KeepsFinal shop-IsOnboarded history

enroll_product-Answers_example :
    (product : ShopProduct) × (find (product_by_id "prod_deposit_hanbit") products ≡ some product)
    × Answers
        (db_of enrollment)
        product
        (result_of enrollment)
        documents
        (get_kyc checked_shop "syn_alice").status
        (existing_attempt checked_shop product)
enroll_product-Answers_example =
    enroll_product-Answers shop_draws checked_shop (db_of enrollment) "syn_alice"
      "prod_deposit_hanbit" documents (result_of enrollment) enrolled

checked_shop-IsOnboarded : IsOnboarded checked_shop
checked_shop-IsOnboarded =
    OnboardingReach-IsOnboarded shop-IsOnboarded
      (next here (submits kyc_draws "syn_alice" papers (result_of submission) submitted))

-- The enrolled customer, after the tables beside the check and the enrollments have changed.
abbrev moved_on : Db
moved_on = with_onboarding (db_of enrollment) shop

enroll_product-final_example :
    (again : ToolResult) × (enroll_product shop_draws moved_on "syn_alice" "prod_deposit_hanbit" []
      ≡ some (again, moved_on))
    × (again.ok ≡ true)
    × (again.audit_id ≡ (result_of enrollment).audit_id)
enroll_product-final_example =
    enroll_product-final shop_draws shop_draws {after = db_of enrollment} "syn_alice"
      "prod_deposit_hanbit" documents [] (result_of enrollment) checked_shop-IsOnboarded enrolled
      succeeded (next here (elsewhere shop refl))
