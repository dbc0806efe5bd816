-- ===== src/Shopper.antt =====
-- packages/core/src/shopper.ts: the comparison products, and the enrollment in one of them. `none` is a
-- thrown error: no transaction holds the call, so the audit row that it wrote before stays, which is
-- not computed here.
pub mod Products
pub mod Recorded
pub mod Final
pub mod Views
pub mod Onboarding
use agentic_bank.Common.{
  ℕ, Bool, true, false, not, ◌&&◌, ◌||◌, Option, none, some, List, [], ◌∷◌, ◌++◌, String,
  if◌then◌else◌, ◌===◌, string_eq, option_eq, find, select, update, delete, includes, ◌>>=◌, ◌>>◌,
  throw_if, is_some,
}
use Prim.Native.String.{◌++◌ as ◌<>◌}
use agentic_bank.Store.{
  AuditRow, Db, ToolResult, ToolData, attempt_open, attempt_completed, attempt_replay,
  documents_missing,
}
use agentic_bank.Store.Args.{Fields, str, arr, end, field}
use agentic_bank.Store.Shop.{
  KycStatus, EnrollmentStatus, Enrollment, ShopDismissal, kyc_status_eq, enrollment_status_eq,
}
use agentic_bank.Store.Types.{Action, BlastRadius, Decision, RuleId, JournalStatus}
use agentic_bank.Audit.{WriteAuditInput, write_audit, get_or}
use agentic_bank.Policy.{copy_posted}
use Products.{ShopProduct, product_by_id, products, is_shop_product_id}
use agentic_bank.Kyc.{
  Checked, KycView, missing_labels, join, texts, get_kyc, case_audit, case_result, copy_kyc_denied,
}

abbrev pub shop_customer_id : String
shop_customer_id = "syn_alice"

abbrev pub copy_kyc_required : String
copy_kyc_required = "실명 확인이 필요합니다"

-- What an enrollment draws: random ids and readings of the clock.
pub record ShopDraws : Type 0 where
  pub attempt_uuid : String
  pub audit_uuid : String
  pub audit_at : ℕ
  pub now : ℕ

enroll_args : ShopProduct → List String → Fields → Fields
enroll_args product checked rest = field "product_id" (str product.id) (
    field "idempotency_key" (str product.idempotency_key)
      (field "checked" (arr (texts checked)) rest))

abbrev pub has_shop_key : String → Enrollment → Bool
has_shop_key key a = a.idempotency_key === some key

abbrev pub attempt_by_id : String → Enrollment → Bool
attempt_by_id i a = a.id === i

-- INSERT INTO enrollment_attempts, with the constraints of the table.
unfoldable pub insert_attempt : Db → Enrollment → Option Db
insert_attempt db row = do
  throw_if (is_some (find (attempt_by_id row.id) db.enrollment_attempts))
  throw_if (is_some (find (λ a. a.idempotency_key === row.idempotency_key) db.enrollment_attempts))
  throw_if (not (includes db.customers row.customer_id))
  some (record db { enrollment_attempts = db.enrollment_attempts ++ row ∷ [] })

unfoldable pub update_attempt : String → (Enrollment → Enrollment) → Db → Db
update_attempt id f db = record db {
  enrollment_attempts = update (attempt_by_id id) f db.enrollment_attempts;
}

unfoldable pub attempt_row :
    ShopDraws → String → ShopProduct → List String → EnrollmentStatus → String → String → Enrollment
attempt_row draws customer_id product documents status copy audit_id = record {
  id = draws.attempt_uuid;
  customer_id = customer_id;
  product_id = product.id;
  idempotency_key = some product.idempotency_key;
  documents = documents;
  status = status;
  copy = copy;
  audit_id = audit_id;
  created_at = draws.now;
}

complete_audit : ShopProduct → List String → WriteAuditInput
unfolding enroll_args
complete_audit product checked =
    case_audit Action.shop_enroll (enroll_args product checked end) Decision.allow
      RuleId.enroll_complete "sandbox KYC passed; demo enrollment completed; no live bank rails"
      "샌드박스 실명 확인을 마쳐 데모 가입을 완료했습니다. 실제 상품·실제 자금이 아니며 라이선스 은행이 아닙니다." BlastRadius.low

unfoldable pub completed : ShopProduct → AuditRow → String → ToolResult
completed product audit attempt_id =
    record (case_result true copy_posted Decision.allow RuleId.enroll_complete audit.reason
      audit.audit_id BlastRadius.low (attempt_completed attempt_id product.id product.title)) {
        journal_status = some JournalStatus.posted;
      }

unfoldable pub posted_attempt : List String → String → Enrollment → Enrollment
posted_attempt documents audit_id a = record a {
  documents = documents;
  status = EnrollmentStatus.posted;
  copy = copy_posted;
  audit_id = audit_id;
}

unfoldable pub complete_enrollment :
    ShopDraws
    → Db
    → String
    → ShopProduct
    → List String
    → Option Enrollment
    → Option (ToolResult × Db)
unfolding complete_audit completed
complete_enrollment draws db customer_id product documents existing =
    write_audit db (complete_audit product documents) draws.audit_uuid draws.audit_at >>= λ a.
    elim existing [
      | some old ↦ some (
        completed product a.0 old.id,
        update_attempt old.id (posted_attempt documents a.0.audit_id) a.1,
      )
      | none ↦
          insert_attempt a.1 (
            attempt_row draws customer_id product documents EnrollmentStatus.posted copy_posted
              a.0.audit_id)
          >>= λ after. some (completed product a.0 draws.attempt_uuid, after)
    ]

unfoldable pub replay_completed : String → Enrollment → ToolResult
replay_completed product_id old =
    record (case_result true old.copy Decision.allow RuleId.enroll_complete
      "idempotent replay of completed sandbox enrollment" old.audit_id BlastRadius.low
      (attempt_replay old.id product_id true)) { journal_status = some JournalStatus.posted }

replay_required : String → Enrollment → ToolResult
replay_required product_id old =
    case_result false old.copy Decision.deny_policy RuleId.kyc_required
      "idempotent replay of KYC stop; enrollment is not complete" old.audit_id BlastRadius.medium
      (attempt_replay old.id product_id false)

kyc_denied_result : String → Option String → String → ToolResult
kyc_denied_result audit_id attempt_id product_id =
    case_result false copy_kyc_denied Decision.deny_policy RuleId.kyc_denied
      "sandbox KYC denied; enrollment stays blocked" audit_id BlastRadius.medium
      (attempt_open attempt_id product_id)

abbrev pub denied_attempt : String → Enrollment → Enrollment
denied_attempt audit_id a = record a {
  status = EnrollmentStatus.kyc_denied;
  copy = copy_kyc_denied;
  audit_id = audit_id;
}

-- The customer's check was denied: an open attempt is closed.
unfoldable pub enroll_denied : Db → KycView → String → Option Enrollment → ToolResult × Db
unfolding kyc_denied_result
enroll_denied db kyc product_id none =
    (kyc_denied_result (get_or kyc.audit_id "") none product_id, db)
enroll_denied db kyc product_id (some old) =
    let audit_id = get_or kyc.audit_id old.audit_id in
    (
      kyc_denied_result audit_id (some old.id) product_id,
      if old.status === EnrollmentStatus.kyc_denied
          then db
          else update_attempt old.id (denied_attempt audit_id) db,
    )

incomplete_audit : ShopProduct → List String → List String → WriteAuditInput
unfolding enroll_args
incomplete_audit product checked missing =
    case_audit Action.shop_enroll
      (enroll_args product checked (field "missing" (arr (texts missing)) end)) Decision.deny_policy
      RuleId.documents_incomplete ("missing documents: " <> join ", " missing)
      ("가입에 필요한 서류를 모두 확인해야 합니다. 아직 " <> join ", " missing <> "이(가) 빠졌습니다.") BlastRadius.medium

unfoldable pub documents_incomplete :
    ShopDraws → Db → ShopProduct → List String → List String → Option (ToolResult × Db)
unfolding incomplete_audit
documents_incomplete draws db product checked missing =
    write_audit db (incomplete_audit product checked missing) draws.audit_uuid draws.audit_at
    >>= λ a. some (
      case_result false ("가입에 필요한 서류를 모두 확인해야 합니다. 아직 " <> join " · " missing <> "가 빠졌습니다.")
          Decision.deny_policy RuleId.documents_incomplete a.0.reason a.0.audit_id
          BlastRadius.medium (documents_missing missing),
      a.1,
    )

required_audit : ShopProduct → List String → WriteAuditInput
unfolding enroll_args
required_audit product checked =
    case_audit Action.shop_enroll (enroll_args product checked end) Decision.deny_policy
      RuleId.kyc_required "documents collected; real-name KYC required; enrollment not completed"
      "서류는 확인했으나 실명 확인이 필요합니다. 가입은 완료되지 않았고 원장은 바뀌지 않습니다." BlastRadius.medium

unfoldable pub kyc_stop :
    ShopDraws → Db → String → ShopProduct → List String → Option (ToolResult × Db)
unfolding required_audit
kyc_stop draws db customer_id product checked = do
  a ← write_audit db (required_audit product checked) draws.audit_uuid draws.audit_at
  after ← insert_attempt a.1 (
      attempt_row draws customer_id product checked EnrollmentStatus.kyc_required copy_kyc_required
        a.0.audit_id)
  some (
    case_result false copy_kyc_required Decision.deny_policy RuleId.kyc_required a.0.reason
        a.0.audit_id BlastRadius.medium (attempt_open (some draws.attempt_uuid) product.id),
    after,
  )

-- The documents that the gate reads: those of the call, or else those of the attempt.
unfoldable pub docs_for_gate : List String → Option Enrollment → List String
docs_for_gate [] none = []
docs_for_gate [] (some old) = old.documents
docs_for_gate (d ∷ ds) existing = d ∷ ds

unfoldable pub enroll_gated :
    ShopDraws
    → Db
    → String
    → ShopProduct
    → List String
    → KycStatus
    → Option Enrollment
    → Option (ToolResult × Db)
enroll_gated draws db customer_id product checked kyc existing =
    let documents = docs_for_gate checked existing in
    elim (missing_labels product.documents documents) [
      | label ∷ labels ↦ documents_incomplete draws db product checked (label ∷ labels)
      | [] ↦
          if kyc === KycStatus.passed
          then complete_enrollment draws db customer_id product documents existing
          else kyc_stop draws db customer_id product checked
    ]

abbrev is_completed : Option Enrollment → Bool
is_completed none = false
is_completed (some old) = old.status === EnrollmentStatus.posted

unfoldable pub enroll_known :
    ShopDraws
    → Db
    → String
    → ShopProduct
    → List String
    → KycView
    → Option Enrollment
    → Option (ToolResult × Db)
unfolding replay_completed replay_required
enroll_known draws db customer_id product checked kyc none =
    if kyc.status === KycStatus.denied
    then some (enroll_denied db kyc product.id none)
    else enroll_gated draws db customer_id product checked kyc.status none
enroll_known draws db customer_id product checked kyc (some old) =
    if old.status === EnrollmentStatus.posted
    then some (replay_completed product.id old, db)
    else if kyc.status === KycStatus.denied
    then some (enroll_denied db kyc product.id (some old))
    else if not (kyc.status === KycStatus.passed)
    then some (replay_required product.id old, db)
    else enroll_gated draws db customer_id product checked kyc.status (some old)

unfoldable pub existing_attempt : Db → ShopProduct → Option Enrollment
existing_attempt db product = find (has_shop_key product.idempotency_key) db.enrollment_attempts

unfoldable pub enroll_product :
    ShopDraws → Db → String → String → List String → Option (ToolResult × Db)
enroll_product draws db customer_id product_id checked =
    if customer_id === shop_customer_id
    then elim (find (product_by_id product_id) products) [
      | none ↦ none
      | some product ↦
          enroll_known draws db customer_id product checked (get_kyc db customer_id)
            (existing_attempt db product)
    ]
    else none

-- INSERT OR REPLACE INTO shop_dismissals
unfoldable pub dismiss_shop_product : Db → String → String → ℕ → Option Db
dismiss_shop_product db customer_id product_id now = do
  throw_if (not (is_shop_product_id product_id))
  throw_if (not (includes db.customers customer_id))
  let row : ShopDismissal = record {
    customer_id = customer_id;
    product_id = product_id;
    created_at = now;
  }
  some (record db {
    shop_dismissals =
        delete (λ d. d.customer_id === customer_id && d.product_id === product_id)
          db.shop_dismissals
        ++ row ∷ [];
  })
