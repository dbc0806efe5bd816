-- ===== src/Store/Shop.antt =====
-- The rows of packages/core/src/db.ts that the KYC, shopper, treasury and bookkeeper modules keep.
-- A column that holds the JSON of a list of texts is that list.
use agentic_bank.Common.{ℕ, String, Bool, Option, List, ◌≡◌, Eq}

pub data KycStatus : Type 0 where
  incomplete reviewing passed denied : KycStatus

pub data EnrollmentStatus : Type 0 where
  kyc_required kyc_denied posted : EnrollmentStatus

unfoldable pub KycStatus_discrete : (a b : KycStatus) → Dec (a ≡ b)
KycStatus_discrete = hlevel

unfoldable pub EnrollmentStatus_discrete : (a b : EnrollmentStatus) → Dec (a ≡ b)
EnrollmentStatus_discrete = hlevel

instance abbrev pub kyc_status_eq : Eq KycStatus
kyc_status_eq = record { dec_eq = KycStatus_discrete }

instance abbrev pub enrollment_status_eq : Eq EnrollmentStatus
enrollment_status_eq = record { dec_eq = EnrollmentStatus_discrete }

pub record KycCase : Type 0 where
  pub id : String
  pub customer_id : String
  pub status : KycStatus
  pub display_name : String
  pub phone : Option String
  pub email : Option String
  pub id_placeholder : String
  pub acknowledgements : List String
  pub scenario : String
  pub copy : String
  pub audit_id : String
  pub created_at : ℕ
  pub updated_at : ℕ

pub record Enrollment : Type 0 where
  pub id : String
  pub customer_id : String
  pub product_id : String
  pub idempotency_key : Option String
  pub documents : List String
  pub status : EnrollmentStatus
  pub copy : String
  pub audit_id : String
  pub created_at : ℕ

pub record ShopDismissal : Type 0 where
  pub customer_id : String
  pub product_id : String
  pub created_at : ℕ

pub record ProposalDismissal : Type 0 where
  pub customer_id : String
  pub proposal_id : String
  pub created_at : ℕ

pub record BookDocument : Type 0 where
  pub customer_id : String
  pub doc_id : String
  pub held : Bool
  pub updated_at : ℕ
