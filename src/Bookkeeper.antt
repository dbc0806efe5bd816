-- ===== src/Bookkeeper.antt =====
-- packages/core/src/bookkeeper.ts: a customer's books over the journals, and the documents that are
-- kept. The texts of the notes show amounts by `toLocaleString`, a parameter.
pub mod Household
pub mod Documents
use agentic_bank.Common.{
  ◌≡◌, Eq, ℕ, Bool, true, false, not, ◌&&◌, ◌||◌, Option, none, some, List, [], ◌∷◌, ◌++◌, String,
  ℤ, pos, if◌then◌else◌, ◌===◌, string_eq, option_eq, find, select, delete, includes, order_desc,
  map_rows, sum_by, ltb_ℤ, ◌>>=◌, ◌>>◌, throw_if, is_some,
}
use Prim.Native.String.{◌++◌ as ◌<>◌}
use agentic_bank.Store.{Account, Journal, Db}
use agentic_bank.Store.Shop.{BookDocument, Enrollment, EnrollmentStatus, enrollment_status_eq}
use agentic_bank.Store.Types.{JournalStatus, RuleId, rule_id_eq, journal_status_eq}
use agentic_bank.Ledger.{available_balance}
use agentic_bank.Shopper.Views.{EnrollmentRow, list_enrollments}
use agentic_bank.Treasury.{treasury_customer_id, product_name, copy_for_journal_status}
use agentic_bank.Treasury.Plan.{acc_alice_chk}

pub data BookFlowKind : Type 0 where
  inflow outflow internal : BookFlowKind

unfoldable pub BookFlowKind_discrete : (a b : BookFlowKind) → Dec (a ≡ b)
BookFlowKind_discrete = hlevel

instance abbrev pub book_flow_kind_eq : Eq BookFlowKind
book_flow_kind_eq = record { dec_eq = BookFlowKind_discrete }

pub record BookFlow : Type 0 where
  pub journal_id : String
  pub kind : BookFlowKind
  pub kind_label : String
  pub title : String
  pub amount : ℤ
  pub created_at : ℕ
  pub copy : String

pub record BookDoc : Type 0 where
  pub id : String
  pub label : String
  pub held : Bool
  pub held_label : String

-- An id and a label of `BOOK_DOCS`.
abbrev book_docs : List (String × String)
book_docs =
    ("transfer_confirm", "이체 확인") ∷ ("insurance_policy", "보험 증권") ∷ ("yearend_pack", "연말정산 자료") ∷ []

-- A later row of a document would win; the key allows one.
unfoldable pub is_held : Db → String → String → Bool
is_held db customer_id doc_id =
    elim (find (λ (d : BookDocument). d.customer_id === customer_id && d.doc_id === doc_id)
      db.book_documents) [ none ↦ false | some d ↦ d.held ]

book_doc : Db → String → String × String → BookDoc
book_doc db customer_id doc =
    let on = is_held db customer_id doc.0 in
    record { id = doc.0; label = doc.1; held = on; held_label = if on then "챙김" else "미챙김" }

unfoldable pub list_book_documents : Db → String → List BookDoc
unfolding book_doc
list_book_documents db customer_id = map_rows (book_doc db customer_id) book_docs

unfoldable pub is_book_doc : String → Bool
is_book_doc doc_id = is_some (find (λ (d : String × String). d.0 === doc_id) book_docs)

-- INSERT OR REPLACE INTO book_documents; an unknown document or customer throws.
unfoldable pub set_book_document : Db → String → String → Bool → ℕ → Option (List BookDoc × Db)
set_book_document db customer_id doc_id held now = do
  throw_if (not (is_book_doc doc_id))
  throw_if (not (includes db.customers customer_id))
  let row : BookDocument = record {
    customer_id = customer_id;
    doc_id = doc_id;
    held = held;
    updated_at = now;
  }
  let after : Db = record db {
    book_documents =
        delete (λ d. d.customer_id === customer_id && d.doc_id === doc_id) db.book_documents
        ++ row ∷ [];
  }
  some (list_book_documents after customer_id, after)

-- SELECT id FROM accounts WHERE customer_id = ?
unfoldable pub is_mine : Db → String → String → Bool
is_mine db customer_id account_id =
    is_some (
      find (λ (a : Account). a.id === account_id && a.customer_id === some customer_id) db.accounts)

unfoldable pub flow_kind : Bool → Bool → BookFlowKind
flow_kind true false = BookFlowKind.outflow
flow_kind false true = BookFlowKind.inflow
flow_kind _ _ = BookFlowKind.internal

unfoldable pub kind_label_of : BookFlowKind → String
kind_label_of BookFlowKind.internal = "내부 이동"
kind_label_of BookFlowKind.outflow = "출금"
kind_label_of BookFlowKind.inflow = "입금"

unfoldable pub book_flow : Db → String → Journal → BookFlow
book_flow db customer_id j =
    let kind =
      flow_kind (is_mine db customer_id j.from_account_id)
        (is_mine db customer_id j.to_account_id) in
    record {
      journal_id = j.id;
      kind = kind;
      kind_label = kind_label_of kind;
      title = product_name j.from_account_id <> " → " <> product_name j.to_account_id;
      amount = j.amount;
      created_at = j.created_at;
      copy = copy_for_journal_status j.status;
    }

-- A journal of the customer's that is not an opening of the seed.
unfoldable pub is_shown_journal : Db → String → Journal → Bool
is_shown_journal db customer_id j =
    not (j.rule_id === some RuleId.seed_opening)
    && (is_mine db customer_id j.from_account_id || is_mine db customer_id j.to_account_id)

unfoldable pub household_flows : Db → String → List BookFlow
household_flows db customer_id = map_rows (book_flow db customer_id) (
    select (is_shown_journal db customer_id)
      (order_desc (λ (j : Journal). j.created_at) db.journals))

unfoldable pub total_of : BookFlowKind → List BookFlow → ℤ
total_of kind flows =
    sum_by (λ (f : BookFlow). f.amount)
      (select (λ (f : BookFlow). f.copy === "완료" && f.kind === kind) flows)

pub record TaxNote : Type 0 where
  pub id : String
  pub title : String
  pub body : String
  pub disclaimer : String

abbrev note : String → String → String → TaxNote
note id title body = record {
  id = id;
  title = title;
  body = body;
  disclaimer = "참고이지 세무 자문이 아닙니다.";
}

pub record BookEnrollment : Type 0 where
  pub id : String
  pub product_title : String
  pub institution : String
  pub kind_label : String
  pub copy : String
  pub created_at : ℕ

pub record BooksView : Type 0 where
  pub customer_id : String
  pub in_total : ℤ
  pub out_total : ℤ
  pub internal_total : ℤ
  pub flows : List BookFlow
  pub empty_copy : Option String
  pub enrollments : List BookEnrollment
  pub tax_notes : List TaxNote
  pub documents : List BookDoc

insurance_note : Bool → TaxNote
insurance_note true =
    note "insurance-deduction" "샌드박스 보험 가입 기록이 있습니다"
      "상품 화면의 들판 실손은 샌드박스 가입만 완료했습니다. 실제 증권이 아니며 세액공제 대상이 아닙니다."
insurance_note false =
    note "insurance-deduction" "보험 증권이 장부에 없습니다"
      "보험료 세액공제에 쓸 증권이 아직 챙김 상태가 아닙니다. 상품 화면의 비교 보험은 실명 확인 전에는 가입이 완료되지 않습니다."

is_posted_enrollment : EnrollmentRow → Bool
is_posted_enrollment e = e.row.status === EnrollmentStatus.posted

book_enrollment : EnrollmentRow → BookEnrollment
book_enrollment e = record {
  id = e.row.id;
  product_title = e.product_title;
  institution = e.institution;
  kind_label = e.kind_label;
  copy = e.row.copy;
  created_at = e.row.created_at;
}

module _ (locale : ℤ → String) where
  unfoldable pub tax_notes : Db → String → List TaxNote
  unfolding insurance_note is_posted_enrollment
  tax_notes db customer_id =
      let checking = available_balance db acc_alice_chk in
      let pension = note "pension-room" "연금저축 한도를 쓰지 않고 있습니다" (
        "연금저축 계좌가 없습니다. 표시된 연간 납입 한도 "
        <> locale (pos 6_000_000)
        <> "원을 아직 채우지 않았습니다. 한도와 공제율은 샌드박스 상수입니다.") in
      let insurance = insurance_note (
        is_some (
          find (λ e. e.row.product_id === "prod_insurance_deulpan" && is_posted_enrollment e)
            (list_enrollments db customer_id))) in
      let idle = note "idle-checking" "낮은 이율 입출금에 현금이 있습니다" (
        "한빛 입출금통장에 "
        <> locale checking
        <> "원이 연 0.10%로 잠들어 있습니다. 한빛 파킹MMF 표시 이율은 연 3.50%입니다. 이자를 더 받으려면 유휴 현금을 옮기는 쪽을 검토할 수 있습니다.") in
      if customer_id === treasury_customer_id
      then (if ltb_ℤ (pos 0) checking
          then idle ∷ pension ∷ insurance ∷ []
          else pension ∷ insurance ∷ [])
      else []

  unfoldable pub books_view : Db → String → BooksView
  unfolding book_enrollment is_posted_enrollment
  books_view db customer_id =
      let flows = household_flows db customer_id in
      record {
        customer_id = customer_id;
        in_total = total_of BookFlowKind.inflow flows;
        out_total = total_of BookFlowKind.outflow flows;
        internal_total = total_of BookFlowKind.internal flows;
        flows = flows;
        empty_copy = elim flows [
          | [] ↦ some "아직 고객이 실행한 이체가 없습니다. 아래 절세 메모는 지금 잔액을 기준으로 한 참고입니다."
          | _ ∷ _ ↦ none
        ];
        enrollments =
            map_rows book_enrollment
              (select is_posted_enrollment (list_enrollments db customer_id));
        tax_notes = tax_notes db customer_id;
        documents = list_book_documents db customer_id;
      }
