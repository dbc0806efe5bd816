-- ===== src/Treasury/Plan.antt =====
-- packages/core/src/treasury.ts: the amounts of the two proposals.
use agentic_bank.Common.{
  ℕ, ◌+◌, ◌*◌, ◌/◌, ◌≤◌, ◌≡◌, refl, true, false, inl, inr, ℤ, pos, negsuc, ◌+ℤ◌, ◌-ℤ◌, ◌≤ℤ◌, ◌<ℤ◌,
  ltb_ℤ, leb_ℤ, pos_part, neg_part, int_laws, String, String_discrete, string_eq, ◌===◌,
  if◌then◌else◌, arith, Bool-cases, -ℤ_parts,
}
use agentic_bank.Store.{Db}
use agentic_bank.Ledger.{available_balance, pending_out}

abbrev pub acc_alice_chk : String
acc_alice_chk = "acc_alice_chk"

abbrev pub acc_alice_mmf : String
acc_alice_mmf = "acc_alice_mmf"

abbrev pub acc_alice_eq : String
acc_alice_eq = "acc_alice_eq"

abbrev pub acc_alice_bond : String
acc_alice_bond = "acc_alice_bond"

abbrev pub checking_buffer_krw : ℤ
checking_buffer_krw = pos 8_000_000

abbrev pub target_equity_bps : ℕ
target_equity_bps = 7000

-- What checking has above the buffer; the balances are integers, so the floor is the number.
unfoldable pub idle_sweep_amount : Db → ℤ
idle_sweep_amount db =
    let spendable = available_balance db acc_alice_chk -ℤ pending_out db acc_alice_chk in
    let excess = spendable -ℤ checking_buffer_krw in if ltb_ℤ (pos 0) excess then excess else pos 0

pub record RebalancePlan : Type 0 where
  pub amount : ℤ
  pub from_account_id : String
  pub to_account_id : String
  pub equity : ℤ
  pub bond : ℤ
  pub target_equity : ℤ
  pub target_bond : ℤ

-- `Math.round` of a quotient that is not negative: halves go up.
abbrev pub round_div : ℕ → ℕ → ℕ
round_div a b = (2 * a + b) / (2 * b)

plan_of : ℤ → String → String → ℤ → ℤ → ℤ → RebalancePlan
plan_of amount from to equity bond target = record {
  amount = amount;
  from_account_id = from;
  to_account_id = to;
  equity = equity;
  bond = bond;
  target_equity = target;
  target_bond = (equity +ℤ bond) -ℤ target;
}

unfoldable pub rebalance_plan_of : ℤ → ℤ → RebalancePlan
unfolding plan_of
rebalance_plan_of equity bond =
    let total = equity +ℤ bond in
    let target = pos (round_div (pos_part total * target_equity_bps) 10_000) in
    let drift = equity -ℤ target in
    if leb_ℤ total (pos 0)
    then record (plan_of (pos 0) acc_alice_eq acc_alice_bond equity bond (pos 0)) {
      target_bond = pos 0;
    }
    else if ltb_ℤ (pos 0) drift
    then plan_of drift acc_alice_eq acc_alice_bond equity bond target
    else if ltb_ℤ drift (pos 0)
    then plan_of (pos 0 -ℤ drift) acc_alice_bond acc_alice_eq equity bond target
    else plan_of (pos 0) acc_alice_eq acc_alice_bond equity bond target

unfoldable pub rebalance_plan : Db → RebalancePlan
rebalance_plan db =
    rebalance_plan_of (available_balance db acc_alice_eq) (available_balance db acc_alice_bond)

-- What an account holds once the amount of the plan has been moved.
abbrev pub held_after : RebalancePlan → String → ℤ → ℤ
held_after plan account_id held =
    (if plan.to_account_id === account_id then held +ℤ plan.amount else held)
    -ℤ (if plan.from_account_id === account_id then plan.amount else pos 0)

-- The plan moves no more than its source holds, it ends at the targets, and the target of equity is
-- within half a won of 70% of the total.
pub record Meets (plan : RebalancePlan) (equity bond : ℤ) : Type 0 where
  pub nonneg : pos 0 ≤ℤ plan.amount
  pub covered : plan.amount ≤ℤ (if plan.from_account_id === acc_alice_eq then equity else bond)
  pub equity_met : held_after plan acc_alice_eq equity ≡ plan.target_equity
  pub bond_met : held_after plan acc_alice_bond bond ≡ plan.target_bond
  pub near_low :
      target_equity_bps * pos_part (equity +ℤ bond) ≤ 10_000 * pos_part plan.target_equity + 5000
  pub near_high :
      10_000 * pos_part plan.target_equity ≤ target_equity_bps * pos_part (equity +ℤ bond) + 5000

abbrev target_of : ℤ → ℤ → ℤ
target_of equity bond = pos (round_div (pos_part (equity +ℤ bond) * target_equity_bps) 10_000)

nonneg_part : (a : ℤ) → pos 0 ≤ℤ a → neg_part a ≡ 0
nonneg_part (pos n) h = refl
nonneg_part (negsuc n) h = absurd (omega arith)

neg_pos_part : (a : ℤ) → a <ℤ pos 0 → pos_part a ≡ 0
neg_pos_part (pos n) h = absurd (omega arith)
neg_pos_part (negsuc n) h = refl

module _ (equity bond : ℤ) (h : pos 0 ≤ℤ equity) (k : pos 0 ≤ℤ bond)
    (positive : pos 0 <ℤ equity +ℤ bond) where
  sells_equity :
      (plan : RebalancePlan)
      → plan
        ≡ plan_of
            (equity -ℤ target_of equity bond)
            acc_alice_eq
            acc_alice_bond
            equity
            bond
            (target_of equity bond)
      → pos 0 ≤ℤ equity -ℤ target_of equity bond
      → Meets plan equity bond
  unfolding plan_of String_discrete
  sells_equity plan e d = rw e (record {
    nonneg = d;
    covered = omega int_laws;
    equity_met = omega int_laws;
    bond_met = omega int_laws;
    near_low = omega int_laws;
    near_high = omega int_laws;
  })

  sells_bond :
      (plan : RebalancePlan)
      → plan
        ≡ plan_of
            (pos 0 -ℤ (equity -ℤ target_of equity bond))
            acc_alice_bond
            acc_alice_eq
            equity
            bond
            (target_of equity bond)
      → equity -ℤ target_of equity bond <ℤ pos 0
      → Meets plan equity bond
  unfolding plan_of String_discrete
  sells_bond plan e d =
      let whole = nonneg_part (equity +ℤ bond) (omega arith) in
      let short = neg_pos_part (equity -ℤ target_of equity bond) d in
      rw e (record {
        nonneg = omega int_laws;
        covered = omega int_laws;
        equity_met = omega int_laws;
        bond_met = omega int_laws;
        near_low = omega int_laws;
        near_high = omega int_laws;
      })

  keeps_both :
      (plan : RebalancePlan)
      → plan ≡ plan_of (pos 0) acc_alice_eq acc_alice_bond equity bond (target_of equity bond)
      → pos_part equity ≡ pos_part (target_of equity bond)
      → Meets plan equity bond
  unfolding plan_of String_discrete
  keeps_both plan e d =
      let whole = nonneg_part (equity +ℤ bond) (omega arith) in
      let owned = nonneg_part equity h in
      rw e (record {
        nonneg = omega int_laws;
        covered = omega int_laws;
        equity_met = omega int_laws;
        bond_met = omega int_laws;
        near_low = omega int_laws;
        near_high = omega int_laws;
      })

  same_part :
      neg_part equity ≡ 0
      → ltb_ℤ (pos 0) (equity -ℤ target_of equity bond) ≡ false
      → ltb_ℤ (equity -ℤ target_of equity bond) (pos 0) ≡ false
      → pos_part equity ≡ pos_part (target_of equity bond)
  same_part owned above below = ground (arith, -ℤ_parts equity (target_of equity bond))

  meets : Meets (rebalance_plan_of equity bond) equity bond
  unfolding rebalance_plan_of
  meets =
      let plan = rebalance_plan_of equity bond in
      let drift = equity -ℤ target_of equity bond in
      elim (Bool-cases (leb_ℤ (equity +ℤ bond) (pos 0))) [
        | inl empty ↦ absurd (ground (arith, empty, positive))
        | inr full ↦ elim (Bool-cases (ltb_ℤ (pos 0) drift)) [
          | inl above ↦ sells_equity plan (rw (full, above)) (ground (arith, above))
          | inr no_more ↦ elim (Bool-cases (ltb_ℤ drift (pos 0))) [
            | inl below ↦ sells_bond plan (rw (full, no_more, below)) (ground (arith, below))
            | inr no_less ↦
                keeps_both plan (rw (full, no_more, no_less))
                  (same_part (nonneg_part equity h) no_more no_less)
          ]
        ]
      ]

-- When the two sleeves hold something and neither is overdrawn, the plan moves no more than its
-- source holds, leaves both at their targets, and puts the target of equity within half a won of
-- 70% of the total.
pub rebalance_plan-Meets :
    (db : Db)
    → pos 0 ≤ℤ available_balance db acc_alice_eq
    → pos 0 ≤ℤ available_balance db acc_alice_bond
    → pos 0 <ℤ available_balance db acc_alice_eq +ℤ available_balance db acc_alice_bond
    → Meets
        (rebalance_plan db)
        (available_balance db acc_alice_eq)
        (available_balance db acc_alice_bond)
unfolding rebalance_plan
rebalance_plan-Meets db h k positive = meets _ _ h k positive

sweep_of : ℤ → ℤ
sweep_of s = if ltb_ℤ (pos 0) (s -ℤ checking_buffer_krw) then s -ℤ checking_buffer_krw else pos 0

swept :
    (s : ℤ)
    → (pos 0 ≤ℤ sweep_of s)
      × (s -ℤ sweep_of s ≡ (if ltb_ℤ checking_buffer_krw s then checking_buffer_krw else s))
unfolding sweep_of
swept s = elim (Bool-cases (ltb_ℤ (pos 0) (s -ℤ checking_buffer_krw))) [
  | inl above ↦
      let over : ltb_ℤ checking_buffer_krw s ≡ true =
        ground (arith, above, -ℤ_parts s checking_buffer_krw) in
      rw (above, over) (ground (arith, above), omega int_laws)
  | inr within ↦
      let under : ltb_ℤ checking_buffer_krw s ≡ false =
        ground (arith, within, -ℤ_parts s checking_buffer_krw) in
      rw (within, under) (omega arith, omega int_laws)
]

-- The sweep takes what is above the buffer, and nothing when there is no more than the buffer.
pub idle_sweep-buffer :
    (db : Db)
    → let spendable = available_balance db acc_alice_chk -ℤ pending_out db acc_alice_chk in
      (pos 0 ≤ℤ idle_sweep_amount db)
      × (spendable -ℤ idle_sweep_amount db
          ≡ (if ltb_ℤ checking_buffer_krw spendable then checking_buffer_krw else spendable))
unfolding idle_sweep_amount sweep_of
idle_sweep-buffer db = swept (available_balance db acc_alice_chk -ℤ pending_out db acc_alice_chk)
