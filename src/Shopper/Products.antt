-- ===== src/Shopper/Products.antt =====
-- packages/core/src/shopper.ts: the products that are compared.
use agentic_bank.Common.{Bool, List, [], ◌∷◌, String, ◌===◌, string_eq, find, is_some}
use agentic_bank.Kyc.{Checked}

pub data ShopKind : Type 0 where
  deposit insurance loan : ShopKind

pub record ShopProduct : Type 0 where
  pub id : String
  pub kind : ShopKind
  pub kind_label : String
  pub institution : String
  pub title : String
  pub headline : String
  pub why : String
  pub documents : List Checked
  pub idempotency_key : String

abbrev pub deposit_product : ShopProduct
deposit_product = record {
  id = "prod_deposit_hanbit";
  kind = ShopKind.deposit;
  kind_label = "예금";
  institution = "한빛저축은행";
  title = "한빛 정기예금";
  headline = "연 4.20%";
  why =
      "지금 들고 있는 한빛 파킹MMF 표시 이율은 연 3.50%입니다. 한빛저축은행 정기예금은 연 4.20%로 더 높습니다. 한 은행에 묶지 않고 비교한 표시 이율이며, 시장 시세가 아닙니다.";
  documents =
      record { id = "id_card"; label = "신분증" }
      ∷ record { id = "resident_copy"; label = "주민등록등본" }
      ∷ record { id = "purpose_form"; label = "금융거래 목적 확인서" }
      ∷ [];
  idempotency_key = "eval:shop-deposit:v0";
}

abbrev pub insurance_product : ShopProduct
insurance_product = record {
  id = "prod_insurance_deulpan";
  kind = ShopKind.insurance;
  kind_label = "보험";
  institution = "들판손해보험";
  title = "들판 실손의료보험";
  headline = "월 28,000원";
  why =
      "장부에 가입된 실손 보장이 없습니다. 들판손해보험 실손은 월 28,000원 표시 보험료로 입원·통원 공백을 채우는 비교안입니다. 실제 청약이나 보험금 지급이 아닙니다.";
  documents =
      record { id = "id_card"; label = "신분증" }
      ∷ record { id = "health_notice"; label = "건강 고지서" }
      ∷ record { id = "prior_policy"; label = "기존 보험 증권 또는 미가입 확인" }
      ∷ [];
  idempotency_key = "eval:shop-insurance:v0";
}

abbrev pub loan_product : ShopProduct
loan_product = record {
  id = "prod_loan_namsan";
  kind = ShopKind.loan;
  kind_label = "대출";
  institution = "남산캐피탈";
  title = "남산 신용대출";
  headline = "연 5.20%";
  why =
      "현재 대출 잔액은 없습니다. 남산캐피탈 신용대출 표시 금리는 연 5.20%로, 비교용 마이너스통장 연 8.90%보다 낮습니다. 실행해도 원장에 대출이 생기지 않습니다.";
  documents =
      record { id = "id_card"; label = "신분증" }
      ∷ record { id = "income_proof"; label = "소득금액증명" }
      ∷ record { id = "employment"; label = "재직증명서" }
      ∷ [];
  idempotency_key = "eval:shop-loan:v0";
}

abbrev pub products : List ShopProduct
products = deposit_product ∷ insurance_product ∷ loan_product ∷ []

abbrev pub product_by_id : String → ShopProduct → Bool
product_by_id i p = p.id === i

-- `isShopProductId`
unfoldable pub is_shop_product_id : String → Bool
is_shop_product_id value = is_some (find (product_by_id value) products)
