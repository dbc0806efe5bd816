-- ===== src/Agents/Untouched.antt =====
-- packages/core/src/agents.ts: the tools and the tables of the ledger.
pub mod Tools
pub mod Execution
use agentic_bank.Common.{
  ℕ, ◌≡◌, ◌≢◌, refl, sym, ap, ◌∙◌, ◌⊎◌, inl, inr, true, false, not, Option, none, some, List, ◌++◌,
  String, string_eq, ◌===◌, ◌>>=◌, Bool, if◌then◌else◌, Option-cases, >>=-some, arith, Number,
  is_some, throw_if, find, select,
}
use agentic_bank.Store.{Account, AuditRow, Session, ToolResult, Db, Dispute, Trace}
use agentic_bank.Store.Args.{Fields}
use agentic_bank.Store.Types.{Actor, Action, AgentName, Decision, RuleId}
use agentic_bank.Audit.{WriteAuditInput, write_audit}
use agentic_bank.Audit.Log.{write_audit-grows}
use agentic_bank.Operator.{require_audit}
use agentic_bank.Agents.{
  Host, append_trace, remember_policy, logged, get_session, is_allowed, deny_tool, max_seq,
}

-- The three tables that carry money are the same.
pub record Untouched (db after : Db) : Type 0 where
  pub same_accounts : after.accounts ≡ db.accounts
  pub same_journals : after.journals ≡ db.journals
  pub same_entries : after.entries ≡ db.entries

pub Untouched-refl : (db : Db) → Untouched db db
Untouched-refl db = record { same_accounts = refl; same_journals = refl; same_entries = refl }

pub Untouched-trans :
    {db middle after : Db} → Untouched db middle → Untouched middle after → Untouched db after
Untouched-trans h k = record {
  same_accounts = k.same_accounts ∙ h.same_accounts;
  same_journals = k.same_journals ∙ h.same_journals;
  same_entries = k.same_entries ∙ h.same_entries;
}

pub write_audit-Untouched :
    {db after : Db} (input : WriteAuditInput) (uuid : String) (now : ℕ) (row : AuditRow)
    → write_audit db input uuid now ≡ some (row, after)
    → Untouched db after
write_audit-Untouched {db} input uuid now row e =
    let ((rows, grown), _) = write_audit-grows db input uuid now row e in
    record { same_accounts = rw grown; same_journals = rw grown; same_entries = rw grown }

pub append_trace-Untouched :
    {db after : Db} (session : Session) (action : Action) (args : Fields) (result : ToolResult)
    (uuid : String) (now : ℕ)
    → append_trace db session action args result uuid now ≡ some after
    → Untouched db after
unfolding append_trace
append_trace-Untouched {db} session action args result uuid now e = record {
  same_accounts = ground arith;
  same_journals = ground arith;
  same_entries = ground arith;
}

pub remember_policy-Untouched :
    {db after : Db} (session_id from to : String) (amount : Number) (d : Decision) (r : RuleId)
    (id : String) (now : ℕ)
    → remember_policy db session_id from to amount d r id now ≡ some after
    → Untouched db after
unfolding remember_policy
remember_policy-Untouched session_id from to amount d r id now e = record {
  same_accounts = ground arith;
  same_journals = ground arith;
  same_entries = ground arith;
}

pub logged-Untouched :
    {db after : Db} (host : Host) (session : Session) (row : WriteAuditInput)
    (result : AuditRow → String → ToolResult) (action : Action) (args : Fields) (r : ToolResult)
    → logged host db session row result action args ≡ some (r, after)
    → Untouched db after
unfolding logged
logged-Untouched {db} {after} host session row result action args r e =
    let ((audit, audited), w, rest) =
      >>=-some (write_audit db row host.audit_uuid host.audit_at) _ e in
    let (id, _, rest') = >>=-some (require_audit audit) _ rest in
    let (traced, t, last) =
      >>=-some
        (append_trace audited session action args (result audit id) host.trace_uuid host.trace_at) _
        rest' in
    let same : after ≡ traced = cc last in
    rw same (
      Untouched-trans (write_audit-Untouched row host.audit_uuid host.audit_at audit w) (
        append_trace-Untouched session action args (result audit id) host.trace_uuid host.trace_at
          t))

-- A call whose results all leave the three tables, and how calls are composed of such.
abbrev pub Keeps : Db → Option (ToolResult × Db) → Type 0
Keeps db call = (r : ToolResult) (after : Db) → call ≡ some (r, after) → Untouched db after

pub Keeps-if :
    {db : Db} (b : Bool) (x y : Option (ToolResult × Db))
    → Keeps db x
    → Keeps db y
    → Keeps db (if b then x else y)
Keeps-if true x y h k = h
Keeps-if false x y h k = k

pub Keeps-option :
    {A : Type 0} {db : Db} (o : Option A) (x : Option (ToolResult × Db))
    (f : A → Option (ToolResult × Db))
    → Keeps db x
    → ((a : A) → Keeps db (f a))
    → Keeps db (elim o [ none ↦ x | some a ↦ f a ])
Keeps-option none x f h k = h
Keeps-option (some a) x f h k = k a

pub Keeps-bind :
    {A : Type 0} {db : Db} (m : Option A) (f : A → Option (ToolResult × Db))
    → ((a : A) → m ≡ some a → Keeps db (f a))
    → Keeps db (m >>= f)
Keeps-bind none f k r after e = absurd (cc)
Keeps-bind (some a) f k r after e = k a refl r after e

-- The last step: the trace of an answer that is computed already.
pub traced-Keeps :
    {db middle : Db} (session : Session) (action : Action) (args : Fields) (answer : ToolResult)
    (uuid : String) (now : ℕ)
    → Untouched db middle
    → Keeps db (
        append_trace middle session action args answer uuid now >>= λ traced. some (answer, traced))
traced-Keeps {db} {middle} session action args answer uuid now h r after e =
    let (traced, t, last) =
      >>=-some (append_trace middle session action args answer uuid now) _ e in
    let same : after ≡ traced = cc last in
    rw same (Untouched-trans h (append_trace-Untouched session action args answer uuid now t))

pub logged-Keeps :
    {db middle : Db} (host : Host) (session : Session) (row : WriteAuditInput)
    (result : AuditRow → String → ToolResult) (action : Action) (args : Fields)
    → Untouched db middle
    → Keeps db (logged host middle session row result action args)
logged-Keeps host session row result action args h r after e =
    Untouched-trans h (logged-Untouched host session row result action args r e)
