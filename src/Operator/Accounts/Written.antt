-- ===== src/Operator/Accounts/Written.antt =====
-- packages/core/src/agents.ts: what `operatorSetAccountStatus` does to the ledger.
use agentic_bank.Common.{
  ◌++◌, ◌≡◌, ◌≢◌, ◌⊎◌, inl, inr, sym, ◌∙◌, none, some, String, string_eq, >>=-some, Option-cases,
  arith, find-update, find_holds, refl,
}
use agentic_bank.Store.{Account, AuditRow, Db, ToolResult}
use agentic_bank.Store.Types.{Product, product_eq}
use agentic_bank.Audit.{WriteAuditInput, write_audit}
use agentic_bank.Ledger.{by_id, get_account, set_account_status}
use agentic_bank.Audit.Log.{write_audit-grows}
use agentic_bank.Operator.{StatusInput, Call, require_audit}
use agentic_bank.Transfers.{LedgerReach, changes_status, elsewhere, here, next}
use agentic_bank.Operator.Accounts.{
  refused_audit, changed_audit, refuse_status, write_status, operator_set_account_status,
}

-- What a call leaves of its account, and that it is a history of the ledger.
abbrev pub Written : Db → StatusInput → Db → Type 0
Written db input after =
    LedgerReach db after
    × ((acc : Account)
        → get_account db input.account_id ≡ some acc
        → ((acc.product ≡ Product.house) × (get_account after input.account_id ≡ some acc))
          ⊎ ((acc.product ≢ Product.house)
              × (get_account after input.account_id ≡ some (record acc { status = input.status }))))

log-LedgerReach :
    {before db after : Db} (input : WriteAuditInput) (call : Call) (row : AuditRow)
    → write_audit db input call.uuid call.now ≡ some (row, after)
    → LedgerReach before db
    → LedgerReach before after
log-LedgerReach {before} {db} input call row w h =
    let ((rows, same), _) = write_audit-grows db input call.uuid call.now row w in
    rw same (next h (elsewhere (record db { audit = db.audit ++ rows })))

write_audit-get_account :
    (db : Db) {after : Db} (input : WriteAuditInput) (call : Call) (row : AuditRow) (id : String)
    → write_audit db input call.uuid call.now ≡ some (row, after)
    → get_account after id ≡ get_account db id
unfolding get_account
write_audit-get_account db input call row id w =
    let ((rows, same), _) = write_audit-grows db input call.uuid call.now row w in rw same

refuse_status_steps :
    (db : Db) {after : Db} (input : StatusInput) (call : Call) (r : ToolResult)
    → refuse_status db input call ≡ some (r, after)
    → (row : AuditRow) × (write_audit db (refused_audit input) call.uuid call.now
        ≡ some (row, after))
unfolding refuse_status
refuse_status_steps db {after} input call r e =
    let ((row, logged), w, rest) =
      >>=-some (write_audit db (refused_audit input) call.uuid call.now) _ e in
    let (audit_id, _, last) = >>=-some (require_audit row) _ rest in
    let same : logged ≡ after = cc last in (row, rw (sym same) w)

abbrev changed_db : Db → StatusInput → Db
changed_db db input = (set_account_status db input.account_id input.status).1

write_status_steps :
    (db : Db) {after : Db} (input : StatusInput) (call : Call) (acc : Account) (r : ToolResult)
    → write_status db input call acc ≡ some (r, after)
    → (row : AuditRow) × (write_audit
          (changed_db db input)
          (changed_audit input acc)
          call.uuid
          call.now
        ≡ some (row, after))
unfolding write_status
write_status_steps db {after} input call acc r e =
    let ((row, logged), w, rest) =
      >>=-some (write_audit (changed_db db input) (changed_audit input acc) call.uuid call.now) _
        e in
    let (audit_id, _, last) = >>=-some (require_audit row) _ rest in
    let same : logged ≡ after = cc last in (row, rw (sym same) w)

changed_db-get_account :
    (db : Db) (input : StatusInput) (acc : Account)
    → get_account db input.account_id ≡ some acc
    → get_account (changed_db db input) input.account_id
      ≡ some (record acc { status = input.status })
unfolding set_account_status get_account
changed_db-get_account db input acc known =
    let id = input.account_id in
    ground (
      arith,
      find-update (by_id id) (by_id id) (λ a. record a { status = input.status }) db.accounts
          (λ _. refl),
      find_holds (by_id id) db.accounts acc known,
    )

refuse_status-Written :
    (db : Db) {after : Db} (input : StatusInput) (call : Call) (r : ToolResult)
    → ((acc : Account) → get_account db input.account_id ≡ some acc → acc.product ≡ Product.house)
    → refuse_status db input call ≡ some (r, after)
    → Written db input after
refuse_status-Written db input call r house e =
    let (row, w) = refuse_status_steps db input call r e in
    (
      log-LedgerReach (refused_audit input) call row w here,
      λ acc known. inl (
        house acc known,
        write_audit-get_account db (refused_audit input) call row input.account_id w ∙ known,
      ),
    )

write_status-Written :
    (db : Db) {after : Db} (input : StatusInput) (call : Call) (acc : Account) (r : ToolResult)
    → get_account db input.account_id ≡ some acc
    → acc.product ≢ Product.house
    → write_status db input call acc ≡ some (r, after)
    → Written db input after
write_status-Written db input call acc r known customer e =
    let (row, w) = write_status_steps db input call acc r e in
    (
      log-LedgerReach (changed_audit input acc) call row w
          (next here (changes_status input.account_id input.status)),
      λ acc' known'. inr (
        λ h. customer (cc (h, known, known')),
        write_audit-get_account (changed_db db input) (changed_audit input acc) call row
              input.account_id w
            ∙ changed_db-get_account db input acc' known',
      ),
    )

status_branches :
    (db : Db) (input : StatusInput) (call : Call) (acc : Account)
    → get_account db input.account_id ≡ some acc
    → ((acc.product ≡ Product.house)
        × (operator_set_account_status db input call ≡ refuse_status db input call))
      ⊎ ((acc.product ≢ Product.house)
          × (operator_set_account_status db input call ≡ write_status db input call acc))
unfolding operator_set_account_status
status_branches db input call acc known = ground arith

unknown_branch :
    (db : Db) (input : StatusInput) (call : Call)
    → get_account db input.account_id ≡ none
    → operator_set_account_status db input call ≡ refuse_status db input call
unfolding operator_set_account_status
unknown_branch db input call unknown = ground arith

status-Written :
    (db : Db) {after : Db} (input : StatusInput) (call : Call) (r : ToolResult)
    → operator_set_account_status db input call ≡ some (r, after)
    → Written db input after
status-Written db input call r e = elim (Option-cases (get_account db input.account_id)) [
  | inl unknown ↦
      refuse_status-Written db input call r (λ acc known. absurd (cc (unknown, known)))
        (sym (unknown_branch db input call unknown) ∙ e)
  | inr (acc, known) ↦ elim (status_branches db input call acc known) [
    | inl (house, b) ↦
        refuse_status-Written db input call r (λ acc' known'. cc (house, known, known')) (sym b ∙ e)
    | inr (customer, b) ↦ write_status-Written db input call acc r known customer (sym b ∙ e)
  ]
]

-- A status write that returns is a history of the ledger, so it moves no money; it sets the status
-- of a customer's account and leaves a house account as it is.
pub operator_set_account_status-Written :
    (db : Db) {after : Db} (input : StatusInput) (call : Call) (r : ToolResult) (acc : Account)
    → operator_set_account_status db input call ≡ some (r, after)
    → get_account db input.account_id ≡ some acc
    → LedgerReach db after
      × (((acc.product ≡ Product.house) × (get_account after input.account_id ≡ some acc))
          ⊎ ((acc.product ≢ Product.house)
              × (get_account after input.account_id ≡ some (record acc { status = input.status }))))
operator_set_account_status-Written db input call r acc e known =
    let (reached, status) = status-Written db input call r e in (reached, status acc known)
