-- ===== src/Kyc.antt =====
-- packages/core/src/kyc.ts: the customer's sandbox identity check. `none` is a thrown
-- error: no transaction holds the call, so the audit rows that it wrote before stay, which is not
-- computed here.
pub mod Synthetic
pub mod Recorded
use agentic_bank.Common.{
  ℕ, Bool, true, false, not, ◌||◌, Option, none, some, List, [], ◌∷◌, ◌++◌, String, if◌then◌else◌,
  ◌===◌, string_eq, find, select, update, includes, ◌>>=◌, is_some,
}
use Prim.Native.String.{◌++◌ as ◌<>◌}
use agentic_bank.Store.{
  AuditRow, Db, ToolResult, ToolData, kyc_status, kyc_replay, kyc_missing, kyc_resolved,
}
use agentic_bank.Store.Args.{Items, Fields, bool, str, arr, obj, nil, cons, end, field}
use agentic_bank.Store.Shop.{KycStatus, KycCase, kyc_status_eq}
use agentic_bank.Store.Types.{Actor, Action, BlastRadius, Decision, RuleId}
use agentic_bank.Audit.{WriteAuditInput, write_audit, get_or}
use agentic_bank.Timeline.{TransferStep, kyc_timeline, kyc_status_label}
use Synthetic.{
  Normal, normal, refused, and_then, normalize_name, normalize_phone, normalize_email,
  normalize_id_placeholder, syn_display_name, syn_phone, syn_email, syn_id_placeholder,
}

abbrev pub kyc_customer_id : String
kyc_customer_id = "syn_alice"

abbrev kyc_idempotency_key : String
kyc_idempotency_key = "eval:kyc:syn_alice:v0"

abbrev kyc_denied_key : String
kyc_denied_key = "eval:kyc-denied:syn_alice:v0"

abbrev copy_kyc_incomplete : String
copy_kyc_incomplete = "실명 확인 미완료"

abbrev copy_kyc_passed : String
copy_kyc_passed = "실명 확인이 완료되었습니다"

abbrev pub copy_kyc_denied : String
copy_kyc_denied = "실명 확인이 거절되었습니다"

-- A document or an acknowledgement to be checked.
pub record Checked : Type 0 where
  pub id : String
  pub label : String

abbrev kyc_acknowledgements : List Checked
kyc_acknowledgements =
    record { id = "ack_sandbox"; label = "이 화면은 샌드박스 실명 확인이며 실제 신원 확인·AML이 아닙니다." }
    ∷ record { id = "ack_no_rrn"; label = "주민등록번호나 실명 신분증 번호를 입력하지 않습니다. 합성 값(syn_*)만 씁니다." }
    ∷ record { id = "ack_not_bank"; label = "라이선스 은행이 아니며 실제 자금이 아닙니다." }
    ∷ []

pub record KycSubmitInput : Type 0 where
  pub display_name : Option String
  pub phone : Option String
  pub email : Option String
  pub id_placeholder : Option String
  pub acknowledgements : Option (List String)
  pub scenario : Option String

-- What a submission draws: random ids and readings of the clock.
pub record KycDraws : Type 0 where
  pub case_uuid : String
  pub review_uuid : String
  pub resolve_uuid : String
  pub now : ℕ
  pub review_at : ℕ
  pub resolve_at : ℕ

pub record KycFields : Type 0 where
  pub name : String
  pub phone : String
  pub email : String
  pub id_placeholder : String

-- The labels of what is not among the checked ids.
unfoldable pub missing_labels : List Checked → List String → List String
missing_labels [] have = []
missing_labels (c ∷ cs) have =
    let rest = missing_labels cs have in if includes have c.id then rest else c.label ∷ rest

unfoldable pub join : String → List String → String
join separator [] = ""
join separator (s ∷ []) = s
join separator (s ∷ t ∷ ts) = s <> separator <> join separator (t ∷ ts)

unfoldable pub texts : List String → Items
texts [] = nil
texts (s ∷ ss) = cons (str s) (texts ss)

abbrev pub is_of : String → KycCase → Bool
is_of customer_id c = c.customer_id === customer_id

unfoldable pub read_case : Db → String → Option KycCase
read_case db customer_id = find (is_of customer_id) db.kyc_cases

-- The view of a customer's check.
pub record KycView : Type 0 where
  pub customer_id : String
  pub status : KycStatus
  pub status_label : String
  pub display_name : String
  pub phone : String
  pub email : String
  pub id_placeholder : String
  pub acknowledgements : List String
  pub copy : String
  pub audit_id : Option String
  pub can_enroll : Bool
  pub timeline : List TransferStep

view_from_row : KycCase → KycView
view_from_row row = record {
  customer_id = row.customer_id;
  status = row.status;
  status_label = kyc_status_label row.status;
  display_name = row.display_name;
  phone = get_or row.phone syn_phone;
  email = get_or row.email syn_email;
  id_placeholder = row.id_placeholder;
  acknowledgements = row.acknowledgements;
  copy = row.copy;
  audit_id = some row.audit_id;
  can_enroll = row.status === KycStatus.passed;
  timeline = kyc_timeline row.status;
}

no_case : String → String → String → String → String → KycView
no_case customer_id display_name phone email id_placeholder = record {
  customer_id = customer_id;
  status = KycStatus.incomplete;
  status_label = kyc_status_label KycStatus.incomplete;
  display_name = display_name;
  phone = phone;
  email = email;
  id_placeholder = id_placeholder;
  acknowledgements = [];
  copy = copy_kyc_incomplete;
  audit_id = none;
  can_enroll = false;
  timeline = kyc_timeline KycStatus.incomplete;
}

unfoldable pub get_kyc : Db → String → KycView
unfolding view_from_row no_case
get_kyc db customer_id =
    if customer_id === kyc_customer_id
    then elim (read_case db customer_id) [
      | none ↦ no_case customer_id syn_display_name syn_phone syn_email syn_id_placeholder
      | some row ↦ view_from_row row
    ]
    else no_case customer_id (if customer_id === "syn_bob" then "밥" else customer_id) "" "" ""

abbrev pub case_audit :
    Action → Fields → Decision → RuleId → String → String → BlastRadius → WriteAuditInput
case_audit action args decision rule_id reason why blast_radius = record {
  audit_id = none;
  actor = Actor.agent;
  action = action;
  args = obj args;
  decision = decision;
  rule_id = rule_id;
  reason = reason;
  why = some why;
  blast_radius = some blast_radius;
  session_id = none;
  journal_id = none;
  agent = none;
  timestamp = none;
}

abbrev pub case_result :
    Bool → String → Decision → RuleId → String → String → BlastRadius → ToolData → ToolResult
case_result ok copy decision rule_id reason audit_id blast_radius data_ = record {
  ok = ok;
  copy = copy;
  decision = decision;
  rule_id = rule_id;
  reason = reason;
  audit_id = audit_id;
  blast_radius = some blast_radius;
  decision_ref = none;
  journal_id = none;
  journal_status = none;
  result_data = data_;
}

pii_denied : KycDraws → Db → String → String → Option (ToolResult × Db)
pii_denied draws db customer_id reason =
    write_audit db
      (case_audit Action.kyc_submit
        (field "customer_id" (str customer_id)
          (field "rejected" (str reason) (field "synthetic_only" (bool true) end)))
        Decision.deny_policy RuleId.pii_forbidden reason
        "실제 주민등록번호나 개인정보는 받지 않습니다. 합성 값(syn_*)만 허용합니다." BlastRadius.medium)
      draws.review_uuid draws.review_at
    >>= λ a. some (
      case_result false "실제 개인정보는 저장하지 않습니다. 합성 값(syn_*)만 입력하세요." Decision.deny_policy
          RuleId.pii_forbidden a.0.reason a.0.audit_id BlastRadius.medium
          (kyc_status KycStatus.incomplete),
      a.1,
    )

unfoldable pub replay_result : KycCase → ToolResult
replay_result row =
    let is_passed = row.status === KycStatus.passed in
    case_result is_passed row.copy (if is_passed then Decision.allow else Decision.deny_policy)
      (if is_passed
        then RuleId.kyc_passed
        else if row.status === KycStatus.denied
        then RuleId.kyc_denied
        else RuleId.kyc_reviewing)
      "idempotent replay of sandbox KYC" row.audit_id
      (if is_passed then BlastRadius.low else BlastRadius.medium) (kyc_replay row.status)

unfoldable pub normalize : KycSubmitInput → Normal KycFields
normalize input = and_then (normalize_name input.display_name) λ name.
    and_then (normalize_phone input.phone) λ phone. and_then (normalize_email input.email) λ email.
      and_then (normalize_id_placeholder input.id_placeholder)
        λ id. normal (record { name = name; phone = phone; email = email; id_placeholder = id })

not_acknowledged : KycDraws → Db → String → List String → Option (ToolResult × Db)
not_acknowledged draws db customer_id missing =
    write_audit db
      (case_audit Action.kyc_submit
        (field "customer_id" (str customer_id) (
          field "missing" (arr (texts missing))
            (field "idempotency_key" (str kyc_idempotency_key) end)))
        Decision.deny_policy RuleId.kyc_incomplete
        ("missing acknowledgements: " <> join ", " missing) "샌드박스 실명 확인 안내를 모두 확인해야 합니다."
        BlastRadius.medium)
      draws.review_uuid draws.review_at
    >>= λ a. some (
      case_result false ("샌드박스 실명 확인 안내를 모두 확인해야 합니다. 아직 " <> join " · " missing <> "가 빠졌습니다.")
          Decision.deny_policy RuleId.kyc_incomplete a.0.reason a.0.audit_id BlastRadius.medium
          (kyc_missing missing KycStatus.incomplete),
      a.1,
    )

is_denied : KycSubmitInput → Bool
is_denied input = get_or input.scenario "" === "deny"

scenario_name : KycSubmitInput → String
unfolding is_denied
scenario_name input = if is_denied input then "deny" else "pass"

key_of : KycSubmitInput → String
unfolding is_denied
key_of input = if is_denied input then kyc_denied_key else kyc_idempotency_key

review_audit : String → KycSubmitInput → KycFields → WriteAuditInput
unfolding scenario_name key_of texts
review_audit customer_id input fields =
    case_audit Action.kyc_submit
      (field "customer_id" (str customer_id) (
        field "idempotency_key" (str (key_of input)) (
          field "id_placeholder" (str fields.id_placeholder) (
            field "acknowledgements" (arr (texts (get_or input.acknowledgements []))) (
              field "scenario" (str (scenario_name input))
                (field "synthetic_only" (bool true) end))))))
      Decision.allow RuleId.kyc_reviewing "sandbox KYC submitted; reviewing synthetic fields only"
      "합성 실명 확인 서류를 접수했습니다. 실제 신원 확인이 아니며 검토 중입니다." BlastRadius.low

resolve_audit : String → KycSubmitInput → WriteAuditInput
unfolding scenario_name key_of
resolve_audit customer_id input =
    let args : Fields = field "customer_id" (str customer_id) (
      field "idempotency_key" (str (key_of input))
        (field "scenario" (str (scenario_name input)) (field "synthetic_only" (bool true) end))) in
    if is_denied input
    then case_audit Action.kyc_resolve args Decision.deny_policy RuleId.kyc_denied
        "sandbox KYC denied golden; enrollment stays blocked"
        "샌드박스 실명 확인이 거절되었습니다. 가입을 완료할 수 없고 원장은 바뀌지 않습니다." BlastRadius.medium
    else case_audit Action.kyc_resolve args Decision.allow RuleId.kyc_passed
        "sandbox KYC passed for syn_alice; enrollment may continue"
        "샌드박스 실명 확인이 완료되었습니다. 실제 신원 확인이 아니며, 이제 데모 가입을 계속할 수 있습니다." BlastRadius.low

-- The row that is inserted, and by which the row of the same customer is updated.
unfoldable pub case_row :
    KycDraws → String → Option KycCase → KycSubmitInput → KycFields → String → KycCase
unfolding is_denied scenario_name
case_row draws customer_id existing input fields audit_id = record {
  id = elim existing [ none ↦ draws.case_uuid | some row ↦ row.id ];
  customer_id = customer_id;
  status = if is_denied input then KycStatus.denied else KycStatus.passed;
  display_name = fields.name;
  phone = some fields.phone;
  email = some fields.email;
  id_placeholder = fields.id_placeholder;
  acknowledgements = get_or input.acknowledgements [];
  scenario = scenario_name input;
  copy = if is_denied input then copy_kyc_denied else copy_kyc_passed;
  audit_id = audit_id;
  created_at = elim existing [ none ↦ draws.now | some row ↦ row.created_at ];
  updated_at = draws.now;
}

-- The UPDATE keeps the id and the time of creation.
unfoldable pub updated_case : KycCase → KycCase → KycCase
updated_case new old = record new { id = old.id; created_at = old.created_at }

-- INSERT … ON CONFLICT(customer_id) DO UPDATE; any other row with the id makes it throw.
unfoldable pub upsert_case : Db → KycCase → Option Db
unfolding updated_case
upsert_case db new =
    if is_some (read_case db new.customer_id)
    then some
        (record db { kyc_cases = update (is_of new.customer_id) (updated_case new) db.kyc_cases })
    else if is_some (find (λ (c : KycCase). c.id === new.id) db.kyc_cases)
    then none
    else some (record db { kyc_cases = db.kyc_cases ++ new ∷ [] })

resolved_result : KycSubmitInput → KycFields → AuditRow → AuditRow → ToolResult
unfolding is_denied
resolved_result input fields review resolve =
    if is_denied input
    then case_result false copy_kyc_denied Decision.deny_policy RuleId.kyc_denied resolve.reason
        resolve.audit_id BlastRadius.medium
        (kyc_resolved KycStatus.denied review.audit_id fields.name fields.id_placeholder)
    else case_result true copy_kyc_passed Decision.allow RuleId.kyc_passed resolve.reason
        resolve.audit_id BlastRadius.low
        (kyc_resolved KycStatus.passed review.audit_id fields.name fields.id_placeholder)

unfoldable pub resolve_case :
    KycDraws → Db → String → Option KycCase → KycSubmitInput → KycFields → Option (ToolResult × Db)
unfolding review_audit resolve_audit resolved_result
resolve_case draws db customer_id existing input fields = do
  review ← write_audit db (review_audit customer_id input fields) draws.review_uuid draws.review_at
  resolve ←
      write_audit review.1 (resolve_audit customer_id input) draws.resolve_uuid draws.resolve_at
  after ←
      upsert_case resolve.1 (case_row draws customer_id existing input fields resolve.0.audit_id)
  some (resolved_result input fields review.0 resolve.0, after)

unfoldable pub submit_fields :
    KycDraws
    → Db
    → String
    → Option KycCase
    → KycSubmitInput
    → Normal KycFields
    → Option (ToolResult × Db)
unfolding pii_denied not_acknowledged
submit_fields draws db customer_id existing input (refused error) =
    pii_denied draws db customer_id error
submit_fields draws db customer_id existing input (normal fields) =
    elim (missing_labels kyc_acknowledgements (get_or input.acknowledgements [])) [
      | [] ↦ resolve_case draws db customer_id existing input fields
      | label ∷ labels ↦ not_acknowledged draws db customer_id (label ∷ labels)
    ]

abbrev pub is_settled : KycStatus → Bool
is_settled status = status === KycStatus.passed || status === KycStatus.denied

unfoldable pub submit_known :
    KycDraws → Db → String → Option KycCase → KycSubmitInput → Option (ToolResult × Db)
submit_known draws db customer_id none input =
    submit_fields draws db customer_id none input (normalize input)
submit_known draws db customer_id (some row) input =
    if is_settled row.status
    then some (replay_result row, db)
    else submit_fields draws db customer_id (some row) input (normalize input)

unfoldable pub submit_kyc : KycDraws → Db → String → KycSubmitInput → Option (ToolResult × Db)
submit_kyc draws db customer_id input =
    if customer_id === kyc_customer_id
    then submit_known draws db customer_id (read_case db customer_id) input
    else none
