-- ===== src/Timeline.antt =====
-- The steps that packages/core/src/treasury.ts and packages/core/src/kyc.ts show of a transfer, an
-- enrollment and an identity check.
use agentic_bank.Common.{List, [], ◌∷◌, String, if◌then◌else◌, ◌===◌, string_eq, ◌||◌}
use agentic_bank.Store.Types.{JournalStatus}
use agentic_bank.Store.Shop.{KycStatus}

-- `upcoming`, `current` and `done`.
pub data TransferStepState : Type 0 where
  completed current upcoming : TransferStepState

pub record TransferStep : Type 0 where
  pub id : String
  pub label : String
  pub state : TransferStepState

abbrev pub step_of : String → String → TransferStepState → TransferStep
step_of id label state = record { id = id; label = label; state = state }

unfoldable pub transfer_timeline : JournalStatus → List TransferStep
transfer_timeline JournalStatus.posted =
    step_of "received" "접수" completed
    ∷ step_of "processing" "진행" completed
    ∷ step_of "complete" "완료" current
    ∷ []
transfer_timeline JournalStatus.pending =
    step_of "received" "접수" completed
    ∷ step_of "awaiting_approval" "승인 대기" current
    ∷ step_of "complete" "완료" upcoming
    ∷ []
transfer_timeline JournalStatus.denied =
    step_of "received" "접수" completed ∷ step_of "denied" "거절" current ∷ []

unfoldable pub enrollment_timeline : String → List TransferStep
enrollment_timeline status =
    if status === "POSTED"
    then step_of "received" "접수" completed
      ∷ step_of "kyc" "실명 확인" completed
      ∷ step_of "complete" "가입 완료" current
      ∷ []
    else if status === "KYC_DENIED" || status === "DENIED"
    then step_of "received" "접수" completed
      ∷ step_of "kyc" "실명 확인" completed
      ∷ step_of "denied" "거절" current
      ∷ []
    else step_of "received" "접수" completed
      ∷ step_of "kyc" "실명 확인이 필요합니다" current
      ∷ step_of "complete" "가입 완료" upcoming
      ∷ []

unfoldable pub kyc_timeline : KycStatus → List TransferStep
kyc_timeline KycStatus.passed =
    step_of "incomplete" "미완료" completed
    ∷ step_of "reviewing" "검토 중" completed
    ∷ step_of "complete" "완료" current
    ∷ []
kyc_timeline KycStatus.denied =
    step_of "incomplete" "미완료" completed
    ∷ step_of "reviewing" "검토 중" completed
    ∷ step_of "denied" "거절" current
    ∷ []
kyc_timeline KycStatus.reviewing =
    step_of "incomplete" "미완료" completed
    ∷ step_of "reviewing" "검토 중" current
    ∷ step_of "complete" "완료" upcoming
    ∷ []
kyc_timeline KycStatus.incomplete =
    step_of "incomplete" "미완료" current
    ∷ step_of "reviewing" "검토 중" upcoming
    ∷ step_of "complete" "완료" upcoming
    ∷ []

unfoldable pub kyc_status_label : KycStatus → String
kyc_status_label KycStatus.incomplete = "미완료"
kyc_status_label KycStatus.reviewing = "검토 중"
kyc_status_label KycStatus.passed = "완료"
kyc_status_label KycStatus.denied = "거절"
