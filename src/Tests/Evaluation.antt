-- ===== src/Tests/Evaluation.antt =====
-- The evaluator's theorems at a transfer between the accounts of one customer of the sample bank.
use agentic_bank.Common.{
  ◌≡◌, ◌≢◌, ◌↔◌, inr, refl, some, String, String_discrete, int, pos, find, arith, sum_by, ◌+ℤ◌,
  ◌-ℤ◌, Option_discrete,
}
use agentic_bank.Store.Types.{AccountStatus, Decision, Side_discrete, JournalStatus_discrete}
use agentic_bank.Time.{seoul_day_utc_range}
use agentic_bank.Ledger.{
  get_account, get_journal, available_balance, pending_out, customer_outbound,
}
use agentic_bank.Policy.{PolicyInput, decide, customer_outbound_on_seoul_day}
use agentic_bank.Policy.Approval.{Eligible}
use agentic_bank.Protocol.Evaluator.{
  Mandate, ProposedAction, PolicyArtifact, DecisionInputSnapshot, allow, evaluate_krw_transfer,
}
use agentic_bank.Protocol.Evaluator.Outcomes.{Reads, evaluate_krw_transfer-agrees}
use agentic_bank.Tests.{bank, alice, savings, texts_differ}

abbrev ask : PolicyInput
ask = record {
  from_account_id = "alice-chk";
  to_account_id = "alice-sav";
  amount = int (pos 500_000);
  actor_customer_id = some "alice";
  now = 1_000_000_000;
}

abbrev mandate : Mandate
mandate = record {
  issued_at = 900_000_000;
  mandate_id = "m1";
  customer_id = "alice";
  agent_id = "transfer";
  from_account_id = "alice-chk";
  to_account_id = "alice-sav";
  currency = "KRW";
  max_amount = 600_000;
  not_before = 900_000_000;
  expires_at = 1_100_000_000;
}

abbrev action : ProposedAction
action = record {
  issued_at = 950_000_000;
  action_id = "x1";
  mandate_id = "m1";
  customer_id = "alice";
  agent_id = "transfer";
  transfer = record {
    from_account_id = "alice-chk";
    to_account_id = "alice-sav";
    currency = "KRW";
    amount = 500_000;
  };
}

abbrev limits : PolicyArtifact
limits = record { daily_cap = 5_000_000; step_up_threshold = 1_000_000 }

abbrev snapshot : DecisionInputSnapshot
snapshot = record {
  from_account_status = AccountStatus.opened;
  to_account_status = AccountStatus.opened;
  from_owner_customer_id = "alice";
  to_owner_customer_id = "alice";
  spendable_funds = 2_600_000;
  daily_spent = 400_000;
}

two_accounts : ◌≢◌ {A = String} "alice-chk" "alice-sav"
unfolding String_discrete
two_accounts = texts_differ "alice-chk" "alice-sav" refl

alice_named : ◌≢◌ {A = String} "alice" ""
unfolding String_discrete
alice_named = texts_differ "alice" "" refl

eligible : Eligible bank ask
unfolding get_account find String_discrete
eligible = record {
  from = alice;
  to = savings;
  customer_id = "alice";
  amount = pos 500_000;
  whole = refl;
  positive = omega arith;
  from_known = refl;
  to_known = refl;
  permitted = record {
    from_customer = λ e. cc;
    to_customer = λ e. cc;
    distinct = two_accounts;
    owned = inr (inr refl);
    has_owner = refl;
    named = alice_named;
    from_open = refl;
    to_open = refl;
  };
}

reads : Reads bank ask eligible mandate action limits snapshot
unfolding eligible available_balance pending_out get_journal find String_discrete sum_by
    Side_discrete JournalStatus_discrete Option_discrete ◌+ℤ◌ ◌-ℤ◌ customer_outbound_on_seoul_day
    customer_outbound seoul_day_utc_range get_account
reads = record {
  from_status = refl;
  to_status = refl;
  from_owner = refl;
  to_owner = refl;
  mandated = refl;
  same_amount = refl;
  spendable = refl;
  spent = refl;
  cap = refl;
  threshold = refl;
}

evaluate_krw_transfer-agrees_example :
    ((evaluate_krw_transfer mandate action limits snapshot).outcome ≡ allow)
    ↔ ((decide bank ask).decision ≡ Decision.allow)
evaluate_krw_transfer-agrees_example =
    evaluate_krw_transfer-agrees bank ask eligible mandate action limits snapshot reads
