-- ===== src/Tests/Decisions.antt =====
-- The policy's theorems at the sample bank.
use agentic_bank.Common.{
  ◌≡◌, ◌≢◌, ◌⊎◌, ◌↔◌, inr, refl, some, String, String_discrete, pos, ◌≤ℤ◌, ◌<ℤ◌, arith, find, ◌-ℤ◌,
}
use agentic_bank.Store.Types.{Decision}
use agentic_bank.Ledger.{get_account}
use agentic_bank.Policy.{decide, dual_control_amount_krw}
use agentic_bank.Policy.Approval.{
  Eligible, IsPermitted, IsFunded, IsCapped, decide_outcomes, decide-deny_policy,
}
use agentic_bank.Tests.{bank, alice, bob, ask, texts_differ}

two_accounts : ◌≢◌ {A = String} "alice-chk" "bob-chk"
unfolding String_discrete
two_accounts = texts_differ "alice-chk" "bob-chk" refl

alice_named : ◌≢◌ {A = String} "alice" ""
unfolding String_discrete
alice_named = texts_differ "alice" "" refl

permitted : IsPermitted ask alice bob "alice"
permitted = record {
  from_customer = λ e. cc;
  to_customer = λ e. cc;
  distinct = two_accounts;
  owned = inr (inr refl);
  has_owner = refl;
  named = alice_named;
  from_open = refl;
  to_open = refl;
}

eligible : Eligible bank ask
unfolding get_account find String_discrete
eligible = record {
  from = alice;
  to = bob;
  customer_id = "alice";
  amount = pos 1_200_000;
  whole = refl;
  positive = omega arith;
  from_known = refl;
  to_known = refl;
  permitted = permitted;
}

decide-deny_policy_example :
    ((decide bank ask).decision ≡ Decision.deny_policy) ↔ (¬ Eligible bank ask)
decide-deny_policy_example = decide-deny_policy bank ask

decide_outcomes_example :
    let d = (decide bank ask).decision in
    let funded = IsFunded bank ask (pos 1_200_000) in
    let capped = IsCapped bank ask "alice" (pos 1_200_000) in
    ((d ≡ Decision.deny_nsf) ↔ (¬ funded))
    × ((d ≡ Decision.deny_limit) ↔ (funded × (¬ capped)))
    × ((d ≡ Decision.dual_control) ↔ (
        funded
        × capped
        × ((some "alice" ≢ bob.customer_id) ⊎ (dual_control_amount_krw ≤ℤ pos 1_200_000))))
    × ((d ≡ Decision.allow) ↔ (
        funded
        × capped
        × (some "alice" ≡ bob.customer_id)
        × (pos 1_200_000 <ℤ dual_control_amount_krw)))
unfolding eligible ◌-ℤ◌
decide_outcomes_example = decide_outcomes bank ask eligible
