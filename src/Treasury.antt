-- ===== src/Treasury.antt =====
-- packages/core/src/treasury.ts: the proposals to a customer, and their execution by the agents'
-- tools. `none` is a thrown error: each tool call is a transaction of its own, so the session and the
-- handoff before a transfer that throws stay, which is not computed here. `toLocaleString` is a
-- parameter.
pub mod Plan
pub mod Execution
use agentic_bank.Common.{
  ℕ, Bool, true, false, not, ◌&&◌, ◌||◌, Option, none, some, List, [], ◌∷◌, ◌++◌, String, ℤ, pos,
  int, if◌then◌else◌, ◌===◌, string_eq, find, select, delete, includes, leb_ℤ, ltb_ℤ, ◌>>=◌, ◌>>◌,
  throw_if, is_some,
}
use Prim.Native.String.{◌++◌ as ◌<>◌}
use agentic_bank.Store.{Account, Journal, Session, ToolResult, Db}
use agentic_bank.Store.Args.{Fields, str, num, end, field}
use agentic_bank.Store.Shop.{ProposalDismissal}
use agentic_bank.Store.Types.{
  JournalStatus, Actor, Action, Decision, RuleId, journal_status_eq, decision_name, rule_name,
}
use agentic_bank.Ledger.{get_journal, get_journal_by_idempotency}
use agentic_bank.Policy.{copy_posted, copy_pending, copy_denied}
use agentic_bank.Agents.{Host, start_session}
use agentic_bank.Agents.Execution.{ToolInput, execute_tool}
use Plan.{
  acc_alice_chk, acc_alice_mmf, acc_alice_eq, acc_alice_bond, checking_buffer_krw, RebalancePlan,
  idle_sweep_amount, rebalance_plan,
}
use agentic_bank.Timeline.{TransferStep, transfer_timeline}

abbrev pub treasury_customer_id : String
treasury_customer_id = "syn_alice"

abbrev pub idle_idempotency_key : String
idle_idempotency_key = "eval:treasury-idle:v0"

abbrev pub rebalance_idempotency_key : String
rebalance_idempotency_key = "eval:rebalance:v0"

pub data ProposalId : Type 0 where
  treasury_idle rebalance : ProposalId

unfoldable pub proposal_name : ProposalId → String
proposal_name ProposalId.treasury_idle = "treasury-idle"
proposal_name ProposalId.rebalance = "rebalance"

-- `isProposalId`
unfoldable pub is_proposal_id : String → Bool
is_proposal_id value = value === "treasury-idle" || value === "rebalance"

abbrev product_checking : String
product_checking = "한빛 입출금통장"

abbrev product_savings : String
product_savings = "한빛 자유적금"

abbrev product_mmf : String
product_mmf = "한빛 파킹MMF"

abbrev product_eq_etf : String
product_eq_etf = "청운 코스피200 ETF"

abbrev product_bond_etf : String
product_bond_etf = "청운 국고채 ETF"

abbrev rail_note_transfer : String
rail_note_transfer = "샌드박스 원장 이체 · 오픈뱅킹·실시간 펌뱅킹 아님"

unfoldable pub product_name : String → String
product_name account_id =
    if account_id === acc_alice_chk
    then product_checking
    else if account_id === acc_alice_mmf
    then product_mmf
    else if account_id === acc_alice_eq
    then product_eq_etf
    else if account_id === acc_alice_bond
    then product_bond_etf
    else if account_id === "acc_alice_sav"
    then product_savings
    else if account_id === "acc_bob_chk"
    then product_checking
    else if account_id === "acc_bob_sav"
    then product_savings
    else "계좌"

unfoldable pub copy_for_journal_status : JournalStatus → String
copy_for_journal_status JournalStatus.posted = copy_posted
copy_for_journal_status JournalStatus.pending = copy_pending
copy_for_journal_status JournalStatus.denied = copy_denied

pub record ProposalLeg : Type 0 where
  pub from_account_id : String
  pub to_account_id : String
  pub amount : ℤ
  pub label : String

pub record ProposalView : Type 0 where
  pub id : ProposalId
  pub title : String
  pub why : String
  pub from_account_id : String
  pub to_account_id : String
  pub from_label : String
  pub to_label : String
  pub amount : ℤ
  pub amount_label : String
  pub idempotency_key : String
  pub legs : List ProposalLeg
  pub dismissed : Bool
  pub journal_id : Option String
  pub journal_status : Option JournalStatus
  pub copy : Option String
  pub timeline : Option (List TransferStep)
  pub rail_note : String

-- The three fields that `overlayJournal` gives.
pub record Overlay : Type 0 where
  pub journal_id : Option String
  pub journal_status : Option JournalStatus
  pub copy : Option String

unfoldable pub overlay_journal : Db → String → Overlay
overlay_journal db key = elim (get_journal_by_idempotency db key) [
  | none ↦ record { journal_id = none; journal_status = none; copy = none }
  | some journal ↦ record {
    journal_id = some journal.id;
    journal_status = some journal.status;
    copy = some (copy_for_journal_status journal.status);
  }
]

-- The journal that a proposal shows, read again by its id; an id that is empty is not read.
unfoldable pub shown_journal : Db → Overlay → Option Journal
shown_journal db overlay = elim overlay.journal_id [
  | none ↦ none
  | some id ↦ if id === "" then none else get_journal db id
]

abbrev pub from_of : Option Journal → String → String
from_of none default = default
from_of (some j) default = j.from_account_id

abbrev pub to_of : Option Journal → String → String
to_of none default = default
to_of (some j) default = j.to_account_id

abbrev pub amount_of : Option Journal → ℤ → ℤ
amount_of none default = default
amount_of (some j) default = j.amount

abbrev timeline_of : Option JournalStatus → Option (List TransferStep)
timeline_of none = none
timeline_of (some status) = some (transfer_timeline status)

abbrev pub is_shown : ProposalView → Bool
is_shown p = is_some p.journal_id || (not p.dismissed && ltb_ℤ (pos 0) p.amount)

same_proposal : ProposalId → ProposalView → Bool
same_proposal id p = proposal_name p.id === proposal_name id

abbrev transfer_args : ProposalView → Fields
transfer_args p = field "from_account_id" (str p.from_account_id) (
    field "to_account_id" (str p.to_account_id)
      (field "amount" (num (int p.amount)) (field "idempotency_key" (str p.idempotency_key) end)))

-- The call of a tool in a session.
abbrev pub tool_input : Session → Action → Fields → ToolInput
tool_input session action args = record {
  session_id = session.id;
  action = action;
  args = args;
  actor = some Actor.agent;
  audit_id = none;
}

unfoldable pub transfer_call : ProposalView → Session → ToolInput
transfer_call p session = tool_input session Action.transfer (transfer_args p)

unfoldable pub handoff_call : Session → ToolInput
handoff_call session = tool_input session Action.handoff (field "to" (str "transfer") end)

unfoldable pub nothing_to_execute : ProposalView → Bool
nothing_to_execute p = leb_ℤ p.amount (pos 0) && not (is_some p.journal_id)

module _ (locale : ℤ → String) where
  abbrev format_won_amount : ℤ → String
  format_won_amount n = locale n <> "원"

  -- What the two proposals have in common: the journal, once there is one, replaces the plan.
  proposal :
      Db
      → Bool
      → ProposalId
      → String
      → String
      → (ℤ → String → String → String)
      → ℤ
      → String
      → String
      → ProposalView
  proposal db dismissed id title key why amount from_default to_default =
      let overlay = overlay_journal db key in
      let journal = shown_journal db overlay in
      let shown_amount = amount_of journal amount in
      let from = from_of journal from_default in
      let to = to_of journal to_default in
      record {
        id = id;
        title = title;
        why = why shown_amount (product_name from) (product_name to);
        from_account_id = from;
        to_account_id = to;
        from_label = product_name from;
        to_label = product_name to;
        amount = shown_amount;
        amount_label = format_won_amount shown_amount;
        idempotency_key = key;
        legs =
            record {
              from_account_id = from;
              to_account_id = to;
              amount = shown_amount;
              label = product_name from <> " → " <> product_name to;
            }
            ∷ [];
        dismissed = dismissed;
        journal_id = overlay.journal_id;
        journal_status = overlay.journal_status;
        copy = overlay.copy;
        timeline = timeline_of overlay.journal_status;
        rail_note = rail_note_transfer;
      }

  unfoldable pub build_idle_proposal : Db → Bool → ProposalView
  unfolding proposal
  build_idle_proposal db dismissed =
      proposal db dismissed ProposalId.treasury_idle "유휴 현금을 한빛 파킹MMF로" idle_idempotency_key
        (λ shown _ _.
          product_checking
          <> "에 생활비 버퍼 "
          <> format_won_amount checking_buffer_krw
          <> "을 남기고, 나머지 "
          <> format_won_amount shown
          <> "을 연 3.50% "
          <> product_mmf
          <> "로 옮깁니다. 표시 이율은 데모 상수이며 시세가 아닙니다.")
        (idle_sweep_amount db) acc_alice_chk acc_alice_mmf

  unfoldable pub build_rebalance_proposal : Db → Bool → ProposalView
  unfolding proposal
  build_rebalance_proposal db dismissed =
      let plan = rebalance_plan db in
      proposal db dismissed ProposalId.rebalance "ETF 슬리브 70/30 비중 맞추기" rebalance_idempotency_key
        (λ shown sell_label buy_label.
          "청운증권 ETF가 목표 70/30에서 벗어나 "
          <> product_eq_etf
          <> " "
          <> format_won_amount plan.equity
          <> "·"
          <> product_bond_etf
          <> " "
          <> format_won_amount plan.bond
          <> "입니다. "
          <> sell_label
          <> " "
          <> format_won_amount shown
          <> "을 매도하고 "
          <> buy_label
          <> "를 매수합니다. 장부 대체이며 실시간 체결이 아닙니다.")
        plan.amount plan.from_account_id plan.to_account_id

  unfoldable pub build_proposal : Db → ProposalId → Bool → ProposalView
  build_proposal db ProposalId.treasury_idle dismissed = build_idle_proposal db dismissed
  build_proposal db ProposalId.rebalance dismissed = build_rebalance_proposal db dismissed

  unfoldable pub is_dismissed : Db → String → ProposalId → Bool
  is_dismissed db customer_id id = is_some (
      find
        (λ (d : ProposalDismissal).
          d.customer_id === customer_id && d.proposal_id === proposal_name id)
        db.proposal_dismissals)

  unfoldable pub list_proposals : Db → String → List ProposalView
  list_proposals db customer_id =
      if customer_id === treasury_customer_id
      then select is_shown (
          build_idle_proposal db (is_dismissed db customer_id ProposalId.treasury_idle)
          ∷ build_rebalance_proposal db (is_dismissed db customer_id ProposalId.rebalance)
          ∷ [])
      else []

  -- The proposal of the list, or else one that is built anew.
  unfoldable pub chosen_proposal : Db → String → ProposalId → ProposalView
  unfolding same_proposal
  chosen_proposal db customer_id id =
      elim (find (same_proposal id) (list_proposals db customer_id)) [
        | some p ↦ p
        | none ↦ build_proposal db id false
      ]

  -- A session, its handoff to the transfer agent, and the transfer.
  unfoldable pub execute_proposal :
      Host → Host → Db → String → ProposalId → String → ℕ → Option (ToolResult × Db)
  execute_proposal handoff_host transfer_host db customer_id id uuid now = do
    throw_if (not (customer_id === treasury_customer_id))
    throw_if (nothing_to_execute (chosen_proposal db customer_id id))
    started ← start_session db customer_id uuid now
    handed ← execute_tool handoff_host started.1 (handoff_call started.0)
    execute_tool transfer_host handed.1
        (transfer_call (chosen_proposal db customer_id id) started.0)

-- INSERT OR REPLACE INTO proposal_dismissals; an unknown customer throws.
unfoldable pub dismiss_proposal : Db → String → ProposalId → ℕ → Option Db
dismiss_proposal db customer_id id now = do
  throw_if (not (includes db.customers customer_id))
  let row : ProposalDismissal = record {
    customer_id = customer_id;
    proposal_id = proposal_name id;
    created_at = now;
  }
  some (record db {
    proposal_dismissals =
        delete (λ d. d.customer_id === customer_id && d.proposal_id === proposal_name id)
          db.proposal_dismissals
        ++ row ∷ [];
  })
