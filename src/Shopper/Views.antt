-- ===== src/Shopper/Views.antt =====
-- packages/core/src/shopper.ts: the lists of products, enrollments and holdings.
use agentic_bank.Common.{
  Bool, true, not, ◌&&◌, ◌||◌, Option, none, some, List, [], String, ℤ, pos, if◌then◌else◌, ◌===◌,
  string_eq, option_eq, find, select, order_desc, map_rows, is_some,
}
use agentic_bank.Store.{Db}
use agentic_bank.Store.Shop.{
  KycStatus, EnrollmentStatus, Enrollment, ShopDismissal, kyc_status_eq, enrollment_status_eq,
}
use agentic_bank.Policy.{copy_posted}
use agentic_bank.Kyc.{KycView, get_kyc}
use agentic_bank.Shopper.{shop_customer_id}
use agentic_bank.Shopper.Products.{ShopProduct, ShopKind, products, product_by_id}

pub record ShopProductView : Type 0 where
  pub product : ShopProduct
  pub dismissed : Bool
  pub attempt_id : Option String
  pub attempt_status : Option EnrollmentStatus
  pub attempt_copy : Option String
  pub audit_id : Option String
  pub kyc_status : KycStatus
  pub kyc_copy : String
  pub can_complete : Bool

pub record ShopHolding : Type 0 where
  pub product_id : String
  pub kind : ShopKind
  pub kind_label : String
  pub institution : String
  pub title : String
  pub headline : String
  pub available : ℤ
  pub status : EnrollmentStatus
  pub copy : String
  pub rail_note : String

-- A row of the table with the three columns that the product gives.
pub record EnrollmentRow : Type 0 where
  pub row : Enrollment
  pub product_title : String
  pub institution : String
  pub kind_label : String

-- ORDER BY created_at DESC LIMIT 1
unfoldable pub attempt_for : Db → String → String → Option Enrollment
attempt_for db customer_id product_id =
    find (λ _. true)
      (order_desc (λ (a : Enrollment). a.created_at)
        (select (λ a. a.customer_id === customer_id && a.product_id === product_id)
          db.enrollment_attempts))

unfoldable pub is_shop_dismissed : Db → String → String → Bool
is_shop_dismissed db customer_id product_id = is_some (
    find (λ (d : ShopDismissal). d.customer_id === customer_id && d.product_id === product_id)
      db.shop_dismissals)

status_of : Option Enrollment → Option EnrollmentStatus
status_of none = none
status_of (some a) = some a.status

product_view : Db → String → KycView → ShopProduct → ShopProductView
unfolding status_of attempt_for is_shop_dismissed
product_view db customer_id kyc p =
    let attempt = attempt_for db customer_id p.id in
    record {
      product = p;
      dismissed = is_shop_dismissed db customer_id p.id && not (is_some attempt);
      attempt_id = elim attempt [ none ↦ none | some a ↦ some a.id ];
      attempt_status = status_of attempt;
      attempt_copy = elim attempt [ none ↦ none | some a ↦ some a.copy ];
      audit_id = elim attempt [ none ↦ none | some a ↦ some a.audit_id ];
      kyc_status = kyc.status;
      kyc_copy = kyc.copy;
      can_complete =
          kyc.status === KycStatus.passed
          && not (status_of attempt === some EnrollmentStatus.posted)
          && not (status_of attempt === some EnrollmentStatus.kyc_denied);
    }

-- `p.attempt_id` counts when it is not empty.
is_listed : ShopProductView → Bool
is_listed p = not p.dismissed || (is_some p.attempt_id && not (p.attempt_id === some ""))

unfoldable pub list_shop_products : Db → String → List ShopProductView
unfolding product_view is_listed
list_shop_products db customer_id =
    if customer_id === shop_customer_id
    then select is_listed (map_rows (product_view db customer_id (get_kyc db customer_id)) products)
    else []

enrollment_row : Enrollment → EnrollmentRow
enrollment_row row = elim (find (product_by_id row.product_id) products) [
  | none ↦ record { row = row; product_title = row.product_id; institution = ""; kind_label = "상품" }
  | some p ↦ record {
    row = row;
    product_title = p.title;
    institution = p.institution;
    kind_label = p.kind_label;
  }
]

unfoldable pub list_enrollments : Db → String → List EnrollmentRow
unfolding enrollment_row
list_enrollments db customer_id = map_rows enrollment_row (
    order_desc (λ (a : Enrollment). a.created_at)
      (select (λ (a : Enrollment). a.customer_id === customer_id) db.enrollment_attempts))

kind_of : Option ShopProduct → ShopKind
kind_of none = ShopKind.deposit
kind_of (some p) = p.kind

headline_of : Option ShopProduct → String
headline_of none = "가입 완료"
headline_of (some p) = p.headline

shop_holding : EnrollmentRow → ShopHolding
unfolding kind_of headline_of
shop_holding e =
    let product = find (product_by_id e.row.product_id) products in
    record {
      product_id = e.row.product_id;
      kind = kind_of product;
      kind_label = e.kind_label;
      institution = e.institution;
      title = e.product_title;
      headline = headline_of product;
      available = pos 0;
      status = EnrollmentStatus.posted;
      copy = copy_posted;
      rail_note = "샌드박스 가입 완료 · 실제 상품·라이선스 은행 아님";
    }

unfoldable pub list_shop_holdings : Db → String → List ShopHolding
unfolding shop_holding
list_shop_holdings db customer_id = map_rows shop_holding (
    select (λ (e : EnrollmentRow). e.row.status === EnrollmentStatus.posted)
      (list_enrollments db customer_id))
