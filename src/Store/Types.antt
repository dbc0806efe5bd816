-- ===== src/Store/Types.antt =====
-- The unions of packages/core/src/types.ts, and their names as texts.
use agentic_bank.Common.{String, ◌≡◌, Eq}

pub data Product : Type 0 where
  checking savings house : Product

-- `opened` is the status "OPEN".
pub data AccountStatus : Type 0 where
  opened frozen closed : AccountStatus

pub data JournalStatus : Type 0 where
  pending posted denied : JournalStatus

pub data AgentName : Type 0 where
  teller transfer dispute : AgentName

pub data Actor : Type 0 where
  agent operator : Actor

pub data BlastRadius : Type 0 where
  low medium high : BlastRadius

pub data Side : Type 0 where
  debit credit : Side

pub data Decision : Type 0 where
  allow deny_limit deny_nsf deny_policy dual_control operator_approve operator_deny : Decision

-- `seed_opening` is written by seed.ts only, and is not in the source's union.
pub data RuleId : Type 0 where
  allow invalid_amount unknown_account not_owned same_account nsf daily_cap : RuleId
  dual_amount dual_other_customer operator_approve operator_deny : RuleId
  self_approve_forbidden agent_tool_denied handoff balance dispute_intake : RuleId
  policy_decide idempotent_replay idempotency_required idempotency_conflict : RuleId
  account_frozen account_status kyc_required kyc_incomplete kyc_reviewing : RuleId
  kyc_passed kyc_denied pii_forbidden documents_incomplete enroll_complete : RuleId
  seed_opening : RuleId

-- The five tools, and the other actions that are written to the audit table.
pub data Action : Type 0 where
  balance handoff transfer open_dispute policy_decide : Action
  operator_approve operator_deny account_status : Action
  shop_enroll kyc_submit kyc_resolve : Action

unfoldable pub Product_discrete : (a b : Product) → Dec (a ≡ b)
Product_discrete = hlevel

unfoldable pub AccountStatus_discrete : (a b : AccountStatus) → Dec (a ≡ b)
AccountStatus_discrete = hlevel

unfoldable pub JournalStatus_discrete : (a b : JournalStatus) → Dec (a ≡ b)
JournalStatus_discrete = hlevel

unfoldable pub AgentName_discrete : (a b : AgentName) → Dec (a ≡ b)
AgentName_discrete = hlevel

unfoldable pub Actor_discrete : (a b : Actor) → Dec (a ≡ b)
Actor_discrete = hlevel

unfoldable pub Side_discrete : (a b : Side) → Dec (a ≡ b)
Side_discrete = hlevel

unfoldable pub Decision_discrete : (a b : Decision) → Dec (a ≡ b)
Decision_discrete = hlevel

unfoldable pub RuleId_discrete : (a b : RuleId) → Dec (a ≡ b)
RuleId_discrete = hlevel

unfoldable pub Action_discrete : (a b : Action) → Dec (a ≡ b)
Action_discrete = hlevel

instance abbrev pub product_eq : Eq Product
product_eq = record { dec_eq = Product_discrete }

instance abbrev pub account_status_eq : Eq AccountStatus
account_status_eq = record { dec_eq = AccountStatus_discrete }

instance abbrev pub journal_status_eq : Eq JournalStatus
journal_status_eq = record { dec_eq = JournalStatus_discrete }

instance abbrev pub agent_name_eq : Eq AgentName
agent_name_eq = record { dec_eq = AgentName_discrete }

instance abbrev pub actor_eq : Eq Actor
actor_eq = record { dec_eq = Actor_discrete }

instance abbrev pub side_eq : Eq Side
side_eq = record { dec_eq = Side_discrete }

instance abbrev pub decision_eq : Eq Decision
decision_eq = record { dec_eq = Decision_discrete }

instance abbrev pub rule_id_eq : Eq RuleId
rule_id_eq = record { dec_eq = RuleId_discrete }

instance abbrev pub action_eq : Eq Action
action_eq = record { dec_eq = Action_discrete }

unfoldable pub decision_name : Decision → String
decision_name Decision.allow = "ALLOW"
decision_name Decision.deny_limit = "DENY_LIMIT"
decision_name Decision.deny_nsf = "DENY_NSF"
decision_name Decision.deny_policy = "DENY_POLICY"
decision_name Decision.dual_control = "DUAL_CONTROL"
decision_name Decision.operator_approve = "OPERATOR_APPROVE"
decision_name Decision.operator_deny = "OPERATOR_DENY"

unfoldable pub account_status_name : AccountStatus → String
account_status_name AccountStatus.opened = "OPEN"
account_status_name AccountStatus.frozen = "FROZEN"
account_status_name AccountStatus.closed = "CLOSED"

unfoldable pub journal_status_name : JournalStatus → String
journal_status_name JournalStatus.pending = "PENDING"
journal_status_name JournalStatus.posted = "POSTED"
journal_status_name JournalStatus.denied = "DENIED"

unfoldable pub agent_name : AgentName → String
agent_name AgentName.teller = "teller"
agent_name AgentName.transfer = "transfer"
agent_name AgentName.dispute = "dispute"

unfoldable pub action_name : Action → String
action_name Action.balance = "balance"
action_name Action.handoff = "handoff"
action_name Action.transfer = "transfer"
action_name Action.open_dispute = "open_dispute"
action_name Action.policy_decide = "policy.decide"
action_name Action.operator_approve = "operator.approve"
action_name Action.operator_deny = "operator.deny"
action_name Action.account_status = "account.status"
action_name Action.shop_enroll = "shop.enroll"
action_name Action.kyc_submit = "shop.kyc.submit"
action_name Action.kyc_resolve = "shop.kyc.resolve"

unfoldable pub rule_name : RuleId → String
rule_name RuleId.allow = "ALLOW"
rule_name RuleId.invalid_amount = "INVALID_AMOUNT"
rule_name RuleId.unknown_account = "UNKNOWN_ACCOUNT"
rule_name RuleId.not_owned = "NOT_OWNED"
rule_name RuleId.same_account = "SAME_ACCOUNT"
rule_name RuleId.nsf = "NSF"
rule_name RuleId.daily_cap = "DAILY_CAP"
rule_name RuleId.dual_amount = "DUAL_AMOUNT"
rule_name RuleId.dual_other_customer = "DUAL_OTHER_CUSTOMER"
rule_name RuleId.operator_approve = "OPERATOR_APPROVE"
rule_name RuleId.operator_deny = "OPERATOR_DENY"
rule_name RuleId.self_approve_forbidden = "SELF_APPROVE_FORBIDDEN"
rule_name RuleId.agent_tool_denied = "AGENT_TOOL_DENIED"
rule_name RuleId.handoff = "HANDOFF"
rule_name RuleId.balance = "BALANCE"
rule_name RuleId.dispute_intake = "DISPUTE_INTAKE"
rule_name RuleId.policy_decide = "POLICY_DECIDE"
rule_name RuleId.idempotent_replay = "IDEMPOTENT_REPLAY"
rule_name RuleId.idempotency_required = "IDEMPOTENCY_REQUIRED"
rule_name RuleId.idempotency_conflict = "IDEMPOTENCY_CONFLICT"
rule_name RuleId.account_frozen = "ACCOUNT_FROZEN"
rule_name RuleId.account_status = "ACCOUNT_STATUS"
rule_name RuleId.kyc_required = "KYC_REQUIRED"
rule_name RuleId.kyc_incomplete = "KYC_INCOMPLETE"
rule_name RuleId.kyc_reviewing = "KYC_REVIEWING"
rule_name RuleId.kyc_passed = "KYC_PASSED"
rule_name RuleId.kyc_denied = "KYC_DENIED"
rule_name RuleId.pii_forbidden = "PII_FORBIDDEN"
rule_name RuleId.documents_incomplete = "DOCUMENTS_INCOMPLETE"
rule_name RuleId.enroll_complete = "ENROLL_COMPLETE"
rule_name RuleId.seed_opening = "SEED_OPENING"
