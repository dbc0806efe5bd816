-- ===== src/Audit.antt =====
-- packages/core/src/audit.ts: one row for every call, with redacted arguments.
pub mod Redact
pub mod Log
use Prim.Native.Nat.{Ordering}
use Prim.Native.String.{compare as compare_text}
use agentic_bank.Common.{
  ℕ, Bool, true, false, ◌&&◌, ◌||◌, Option, none, some, List, [], ◌∷◌, ◌++◌, String, ltb, leb,
  if◌then◌else◌, ◌===◌, string_eq, find, select, trim, ◌>>=◌, ◌>>◌, throw_if, is_some,
}
use agentic_bank.Store.{AuditRow, Db}
use agentic_bank.Store.Args.{Json, Fields, null, str, obj, get_field}
use agentic_bank.Store.Types.{
  Actor, Action, AgentName, BlastRadius, Decision, RuleId, low, medium, high, rule_id_eq, action_eq,
  decision_eq,
}
use Redact.{redact_args}

pub record WriteAuditInput : Type 0 where
  pub audit_id : Option String
  pub actor : Actor
  pub action : Action
  pub args : Json
  pub decision : Decision
  pub rule_id : RuleId
  pub reason : String
  pub why : Option String
  pub blast_radius : Option BlastRadius
  pub session_id : Option String
  pub journal_id : Option String
  pub agent : Option AgentName
  pub timestamp : Option ℕ

-- The operator of a default for `null`.
abbrev pub get_or {ℓ} : {A : Type ℓ} → Option A → A → A
get_or none b = b
get_or (some a) b = a

by_decision : Decision → BlastRadius
by_decision Decision.dual_control = high
by_decision Decision.allow = low
by_decision Decision.operator_approve = high
by_decision _ = medium

unfoldable pub blast_radius_for : Decision → RuleId → BlastRadius
unfolding by_decision
blast_radius_for decision rule_id =
    if rule_id === RuleId.account_frozen then medium else by_decision decision

abbrev derive_blast_radius : WriteAuditInput → BlastRadius
derive_blast_radius input =
    get_or input.blast_radius (blast_radius_for input.decision input.rule_id)

abbrev pub audit_by_id : String → AuditRow → Bool
audit_by_id i a = a.audit_id === i

unfoldable pub get_audit : Db → String → Option AuditRow
get_audit db audit_id = find (audit_by_id audit_id) db.audit

-- The row that the INSERT writes.
unfoldable pub audit_row : WriteAuditInput → String → ℕ → AuditRow
audit_row input audit_id now = record {
  audit_id = audit_id;
  timestamp = get_or input.timestamp now;
  actor = input.actor;
  action = input.action;
  args = redact_args input.args;
  decision = input.decision;
  rule_id = input.rule_id;
  reason = input.reason;
  why = get_or input.why input.reason;
  blast_radius = derive_blast_radius input;
  session_id = input.session_id;
  journal_id = input.journal_id;
  agent = input.agent;
}

-- An id that is there already keeps its row; an empty one throws.
unfoldable pub write_audit : Db → WriteAuditInput → String → ℕ → Option (AuditRow × Db)
unfolding audit_row get_audit
write_audit db input uuid now =
    let audit_id = get_or input.audit_id uuid in
    if audit_id === "" then none else elim (get_audit db audit_id) [
      | some existing ↦ some (existing, db)
      | none ↦ some (
        audit_row input audit_id now,
        record db { audit = db.audit ++ audit_row input audit_id now ∷ [] },
      )
    ]

-- json_extract(args_json, '$.idempotency_key') = key
abbrev extracts : String → Option Json → Bool
extracts key (some (str s)) = s === key
extracts key _ = false

abbrev has_key : String → Json → Bool
has_key key (obj fs) = extracts key (get_field "idempotency_key" fs)
has_key key _ = false

text_before : String → String → Bool
text_before s t = elim (compare_text s t) [ Ordering.gt ↦ false | _ ↦ true ]

-- ORDER BY timestamp ASC, id ASC
abbrev before : AuditRow → AuditRow → Bool
before a b =
    ltb a.timestamp b.timestamp
    || (leb a.timestamp b.timestamp && text_before a.audit_id b.audit_id)

-- LIMIT 1
abbrev keep_first : AuditRow → Option AuditRow → AuditRow
keep_first a none = a
keep_first a (some b) = if before a b then a else b

unfoldable pub earliest : List AuditRow → Option AuditRow
unfolding text_before
earliest [] = none
earliest (a ∷ as_) = some (keep_first a (earliest as_))

abbrev decided : Option Decision → AuditRow → Bool
decided none a = true
decided (some d) a = a.decision === d

unfoldable pub find_audit_by_idempotency : Db → Action → String → Option Decision → Option AuditRow
unfolding earliest
find_audit_by_idempotency db action key decision =
    let trimmed = trim key in
    if trimmed === ""
    then none
    else earliest
        (select (λ a. a.action === action && decided decision a && has_key trimmed a.args) db.audit)
