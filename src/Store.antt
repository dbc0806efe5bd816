-- ===== src/Store.antt =====
-- The SQLite tables of packages/core/src/db.ts and the row types of packages/core/src/types.ts.
-- A table is the list of its rows in insertion order. Timestamps are milliseconds since 1970 UTC:
-- the ISO texts that the code stores are compared in that order.
pub mod Types
pub mod Args
pub mod Shop
use agentic_bank.Common.{ℕ, String, Bool, ℤ, Number, Option, List}
use Types.{
  Product, AccountStatus, JournalStatus, AgentName, Actor, BlastRadius, Side, Decision, RuleId,
  Action,
}
use Args.{Json}
use Shop.{KycStatus, KycCase, Enrollment, ShopDismissal, ProposalDismissal, BookDocument}

pub record Account : Type 0 where
  pub id : String
  pub customer_id : Option String
  pub product : Product
  pub status : AccountStatus

pub record Journal : Type 0 where
  pub id : String
  pub idempotency_key : Option String
  pub from_account_id : String
  pub to_account_id : String
  pub amount : ℤ
  pub status : JournalStatus
  pub decision : Option Decision
  pub rule_id : Option RuleId
  pub reason : Option String
  pub decision_ref : Option String
  pub created_by : Option Actor
  pub created_at : ℕ
  pub posted_at : Option ℕ

-- The column `posted` holds 0 or 1.
pub record Entry : Type 0 where
  pub id : String
  pub journal_id : String
  pub account_id : String
  pub side : Side
  pub amount : ℤ
  pub posted : Bool
  pub created_at : ℕ

pub record AuditRow : Type 0 where
  pub audit_id : String
  pub timestamp : ℕ
  pub actor : Actor
  pub action : Action
  pub args : Json
  pub decision : Decision
  pub rule_id : RuleId
  pub reason : String
  pub why : String
  pub blast_radius : BlastRadius
  pub session_id : Option String
  pub journal_id : Option String
  pub agent : Option AgentName

pub record Session : Type 0 where
  pub id : String
  pub customer_id : String
  pub current_agent : AgentName
  pub created_at : ℕ

pub record AccountView : Type 0 where
  pub id : String
  pub customer_id : Option String
  pub product : Product
  pub status : AccountStatus
  pub available : ℤ
  pub pending_out : ℤ
  pub posted_credits : ℤ
  pub posted_debits : ℤ

pub record PolicyResult : Type 0 where
  pub decision : Decision
  pub rule_id : RuleId
  pub reason : String
  pub copy : String

-- What a tool returns beside its decision: the field `data`.
pub data ToolData : Type 0 where
  no_data : ToolData
  view : AccountView → ToolData
  current_agent : AgentName → ToolData
  replay : ToolData
  replay_of : Journal → ToolData
  policy : PolicyResult → ToolData
  status : ℕ → ToolData
  held : ℤ → ℤ → ToolData
  dispute_open : String → ToolData
  account : Option AccountView → ToolData
  kyc_status : KycStatus → ToolData
  kyc_replay : KycStatus → ToolData
  kyc_missing : List String → KycStatus → ToolData
  kyc_resolved : KycStatus → String → String → String → ToolData
  attempt_open : Option String → String → ToolData
  attempt_completed : String → String → String → ToolData
  attempt_replay : String → String → Bool → ToolData
  documents_missing : List String → ToolData

-- A field that is absent and one that is `null` are both `none`.
pub record ToolResult : Type 0 where
  pub ok : Bool
  pub copy : String
  pub decision : Decision
  pub rule_id : RuleId
  pub reason : String
  pub audit_id : String
  pub blast_radius : Option BlastRadius
  pub decision_ref : Option String
  pub journal_id : Option String
  pub journal_status : Option JournalStatus
  pub result_data : ToolData

pub record Trace : Type 0 where
  pub id : String
  pub session_id : String
  pub seq : ℕ
  pub agent : AgentName
  pub action : Action
  pub args : Json
  pub result : ToolResult
  pub created_at : ℕ

pub record Dispute : Type 0 where
  pub id : String
  pub account_id : String
  pub customer_id : String
  pub reason : String
  pub created_at : ℕ

pub record SessionPolicy : Type 0 where
  pub session_id : String
  pub from_account_id : String
  pub to_account_id : String
  pub amount : Number
  pub decision : Decision
  pub rule_id : RuleId
  pub decide_audit_id : String
  pub decided_at : ℕ

pub record Db : Type 0 where
  pub accounts : List Account
  pub journals : List Journal
  pub entries : List Entry
  pub audit : List AuditRow
  pub customers : List String
  pub sessions : List Session
  pub traces : List Trace
  pub disputes : List Dispute
  pub session_policy : List SessionPolicy
  pub proposal_dismissals : List ProposalDismissal
  pub enrollment_attempts : List Enrollment
  pub kyc_cases : List KycCase
  pub shop_dismissals : List ShopDismissal
  pub book_documents : List BookDocument
