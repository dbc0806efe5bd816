-- ===== src/Kyc/Recorded.antt =====
-- packages/core/src/kyc.ts, `submitKyc`: what a submission that returns has changed.
use agentic_bank.Common.{
  ℕ, ◌≡◌, inl, inr, refl, sym, ap, ◌∙◌, false, Option, none, some, List, [], ◌∷◌, ◌++◌, String,
  string_eq, ◌===◌, arith, ◌>>=◌, >>=-some, Bool-cases, ===_of_ne,
}
use agentic_bank.Store.{AuditRow, Db, ToolResult}
use agentic_bank.Store.Shop.{KycCase}
use agentic_bank.Audit.{WriteAuditInput, write_audit, get_or}
use agentic_bank.Audit.Log.{write_audit-grows}
use agentic_bank.Kyc.{
  KycSubmitInput, KycDraws, KycFields, normalize, read_case, upsert_case, case_row, is_settled,
  submit_kyc, submit_known, submit_fields, resolve_case, not_acknowledged, missing_labels,
  kyc_acknowledgements, kyc_customer_id, review_audit, resolve_audit,
}
use agentic_bank.Kyc.Synthetic.{
  Normal, normal, refused, and_then, normalize_name, normalize_phone, normalize_email,
  normalize_id_placeholder, syn_display_name, syn_phone_ok, syn_email_ok, syn_id_ok, IsSynthetic,
  normalize_field-IsSynthetic, syn_phone-IsSynthetic, syn_email-IsSynthetic, syn_id-IsSynthetic,
}

-- A case that holds synthetic values only.
pub record IsSyntheticCase (c : KycCase) : Type 0 where
  pub name : c.display_name ≡ syn_display_name
  pub phone : (p : String) × (c.phone ≡ some p) × IsSynthetic syn_phone_ok p
  pub email : (p : String) × (c.email ≡ some p) × IsSynthetic syn_email_ok p
  pub id_placeholder : IsSynthetic syn_id_ok c.id_placeholder

-- No decision on the customer is recorded yet.
abbrev pub IsUnsettled : Db → String → Type 0
IsUnsettled db customer_id =
    (old : KycCase) → read_case db customer_id ≡ some old → is_settled old.status ≡ false

-- What a submission changes: the audit table, and a case that is not settled.
pub data KycEffect (db after : Db) : Type 0 where
  audited : (rows : List AuditRow) → after ≡ record db { audit = rows } → KycEffect db after
  resolved :
      (rows : List AuditRow) (row : KycCase)
      → row.customer_id ≡ kyc_customer_id
      → IsUnsettled db kyc_customer_id
      → IsSyntheticCase row
      → upsert_case (record db { audit = rows }) row ≡ some after
      → KycEffect db after

and_then-normal :
    {A B : Type 0} (m : Normal A) (f : A → Normal B) {b : B}
    → and_then m f ≡ normal b
    → (a : A) × (m ≡ normal a) × (f a ≡ normal b)
and_then-normal (normal a) f e = (a, refl, e)
and_then-normal (refused x) f e = cc

normalize_name-fixed :
    (value : Option String) {v : String} → normalize_name value ≡ normal v → v ≡ syn_display_name
unfolding normalize_name
normalize_name-fixed value e = ground arith

pub record IsSyntheticFields (fields : KycFields) : Type 0 where
  pub name : fields.name ≡ syn_display_name
  pub phone : IsSynthetic syn_phone_ok fields.phone
  pub email : IsSynthetic syn_email_ok fields.email
  pub id_placeholder : IsSynthetic syn_id_ok fields.id_placeholder

normalize-IsSynthetic :
    (input : KycSubmitInput) (fields : KycFields)
    → normalize input ≡ normal fields
    → IsSyntheticFields fields
unfolding normalize
normalize-IsSynthetic input fields e =
    let (name, n, e1) = and_then-normal (normalize_name input.display_name) _ e in
    let (phone, p, e2) = and_then-normal (normalize_phone input.phone) _ e1 in
    let (email, m, e3) = and_then-normal (normalize_email input.email) _ e2 in
    let (id, i, e4) = and_then-normal (normalize_id_placeholder input.id_placeholder) _ e3 in
    record {
      name = sym (ap (λ (x : KycFields). x.name) (same e4)) ∙ normalize_name-fixed _ n;
      phone =
          rw (← ap (λ (x : KycFields). x.phone) (same e4))
            (normalize_field-IsSynthetic _ _ _ _ syn_phone-IsSynthetic p);
      email =
          rw (← ap (λ (x : KycFields). x.email) (same e4))
            (normalize_field-IsSynthetic _ _ _ _ syn_email-IsSynthetic m);
      id_placeholder =
          rw (← ap (λ (x : KycFields). x.id_placeholder) (same e4))
            (normalize_field-IsSynthetic _ _ _ _ syn_id-IsSynthetic i);
    }
  where
    same : {a b : KycFields} → normal a ≡ normal b → a ≡ b
    same h = cc h

-- An answer after one audit row.
pub audited_then :
    (db : Db) {after : Db} (input : WriteAuditInput) (uuid : String) (now : ℕ)
    (f : AuditRow × Db → ToolResult) {r : ToolResult}
    → ◌>>=◌ {B = ToolResult × Db} (write_audit db input uuid now) (λ a. some (f a, a.1))
      ≡ some (r, after)
    → (rows : List AuditRow) × (after ≡ record db { audit = rows })
audited_then db input uuid now f e =
    let ((row, middle), w, last) = >>=-some (write_audit db input uuid now) _ e in
    let ((rows, grown), _) = write_audit-grows db input uuid now row w in
    (db.audit ++ rows, cc (last, grown))

module _ (draws : KycDraws) (input : KycSubmitInput) where
  case_row-customer :
      (existing : Option KycCase) (fields : KycFields) (id : String)
      → (case_row draws kyc_customer_id existing input fields id).customer_id ≡ kyc_customer_id
  unfolding case_row
  case_row-customer existing fields id = refl

  case_row-IsSyntheticCase :
      (existing : Option KycCase) (fields : KycFields) (id : String)
      → IsSyntheticFields fields
      → IsSyntheticCase (case_row draws kyc_customer_id existing input fields id)
  unfolding case_row
  case_row-IsSyntheticCase existing fields id s = record {
    name = s.name;
    phone = (fields.phone, refl, s.phone);
    email = (fields.email, refl, s.email);
    id_placeholder = s.id_placeholder;
  }

module _ (draws : KycDraws) (db : Db) {after : Db} (input : KycSubmitInput) where
  resolve_case-KycEffect :
      (existing : Option KycCase) (fields : KycFields) (r : ToolResult)
      → IsSyntheticFields fields
      → IsUnsettled db kyc_customer_id
      → resolve_case draws db kyc_customer_id existing input fields ≡ some (r, after)
      → KycEffect db after
  unfolding resolve_case
  resolve_case-KycEffect existing fields r s open_ e =
      let ((review, d1), w1, e1) =
        >>=-some
          (write_audit db (review_audit kyc_customer_id input fields) draws.review_uuid
            draws.review_at)
          _ e in
      let ((resolve, d2), w2, e2) =
        >>=-some
          (write_audit d1 (resolve_audit kyc_customer_id input) draws.resolve_uuid draws.resolve_at)
          _ e1 in
      let ((rows1, g1), _) = write_audit-grows db _ _ _ review w1 in
      let ((rows2, g2), _) = write_audit-grows d1 _ _ _ resolve w2 in
      let row : KycCase = case_row draws kyc_customer_id existing input fields resolve.audit_id in
      let (d3, u, last) = >>=-some (upsert_case d2 row) _ e2 in
      let same : d2 ≡ record db { audit = d1.audit ++ rows2 } = cc (g2, g1) in
      resolved (d1.audit ++ rows2) row
        (case_row-customer draws input existing fields resolve.audit_id) open_
        (case_row-IsSyntheticCase draws input existing fields resolve.audit_id s)
        (cc (u, same, last))

  not_acknowledged-audited :
      (labels : List String) (r : ToolResult)
      → not_acknowledged draws db kyc_customer_id labels ≡ some (r, after)
      → (rows : List AuditRow) × (after ≡ record db { audit = rows })
  unfolding not_acknowledged
  not_acknowledged-audited labels r e = audited_then db _ _ _ _ e

  submit_fields-KycEffect :
      (existing : Option KycCase) (m : Normal KycFields) (r : ToolResult)
      → ((fields : KycFields) → m ≡ normal fields → IsSyntheticFields fields)
      → IsUnsettled db kyc_customer_id
      → submit_fields draws db kyc_customer_id existing input m ≡ some (r, after)
      → KycEffect db after
  unfolding submit_fields
  submit_fields-KycEffect existing (refused x) r s open_ e =
      let (rows, grown) = audited_then db _ _ _ _ e in audited rows grown
  submit_fields-KycEffect existing (normal fields) r s open_ e =
      by_missing (missing_labels kyc_acknowledgements (get_or input.acknowledgements [])) refl
    where
      by_missing :
          (labels : List String)
          → missing_labels kyc_acknowledgements (get_or input.acknowledgements []) ≡ labels
          → KycEffect db after
      by_missing [] complete =
          resolve_case-KycEffect existing fields r (s fields refl) open_ (ground (arith, complete))
      by_missing (label ∷ labels) missing =
          let (rows, grown) =
            not_acknowledged-audited (label ∷ labels) r (ground (arith, missing)) in
          audited rows grown

  submit_known-KycEffect :
      (existing : Option KycCase) (r : ToolResult)
      → read_case db kyc_customer_id ≡ existing
      → submit_known draws db kyc_customer_id existing input ≡ some (r, after)
      → KycEffect db after
  unfolding submit_known
  submit_known-KycEffect none r known e =
      submit_fields-KycEffect none (normalize input) r (normalize-IsSynthetic input)
        (λ old found. absurd (cc)) e
  submit_known-KycEffect (some row) r known e = elim (Bool-cases (is_settled row.status)) [
    | inl settled ↦ audited db.audit (ground (arith, settled))
    | inr open_ ↦
        submit_fields-KycEffect (some row) (normalize input) r (normalize-IsSynthetic input)
          (λ old found. cc (known, found, open_)) (ground (arith, open_))
  ]

  -- What a submission that returns has changed.
  pub submit_kyc-KycEffect :
      (customer_id : String) (r : ToolResult)
      → submit_kyc draws db customer_id input ≡ some (r, after)
      → KycEffect db after
  unfolding submit_kyc
  submit_kyc-KycEffect customer_id r e = elim (Bool-cases (customer_id === kyc_customer_id)) [
    | inl same ↦
        submit_known-KycEffect (read_case db kyc_customer_id) r refl
          (ground (arith, same, ===_of_ne customer_id kyc_customer_id))
    | inr other ↦ absurd (cc (e, other))
  ]
