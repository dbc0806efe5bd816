-- ===== src/Transfers/History.antt =====
-- The life of a journal over a history of the ledger (packages/core/src/ledger.ts).
use agentic_bank.Common.{ℕ, ◌≡◌, ◌≢◌, ◌∙◌, some, String, String_discrete, arith, ap, is_some}
use agentic_bank.Store.{Journal, Db}
use agentic_bank.Store.Types.{pending}
use agentic_bank.Ledger.{get_journal}
use agentic_bank.Ledger.Clear.{post_journal, deny_journal, mark_posted, mark_denied}
use agentic_bank.Ledger.Clear.Effect.{
  get_journal-post_self, get_journal-post_ne, get_journal-deny_self, get_journal-deny_ne,
}
use agentic_bank.Ledger.Spendable.{get_journal-written_old}
use agentic_bank.Ledger.Write.Effect.{RefersIn}
use agentic_bank.Transfers.{LedgerReach, here, next}
use agentic_bank.Transfers.Effects.{
  LedgerEffect, unchanged, wrote, posts, denies, sets_status, goes_elsewhere, step_effect,
}
use agentic_bank.Transfers.Conservation.Steps.{Sound, LedgerReach-Sound}

-- The row as it was, or a pending row that has been posted or denied.
pub data Evolves (j : Journal) : Journal → Type 0 where
  same : Evolves j j
  is_posted : (ts : ℕ) → j.status ≡ pending → Evolves j (mark_posted ts j)
  is_denied : j.status ≡ pending → Evolves j (mark_denied j)

Evolves-trans : {j k l : Journal} → Evolves j k → Evolves k l → Evolves j l
Evolves-trans same e = e
Evolves-trans (is_posted ts p) same = is_posted ts p
Evolves-trans (is_posted ts p) (is_posted ts' q) = absurd (cc)
Evolves-trans (is_posted ts p) (is_denied q) = absurd (cc)
Evolves-trans (is_denied p) same = is_denied p
Evolves-trans (is_denied p) (is_posted ts q) = absurd (cc)
Evolves-trans (is_denied p) (is_denied q) = absurd (cc)

abbrev Kept : Db → String → Journal → Type 0
Kept db' k j = (j' : Journal) × (get_journal db' k ≡ some j') × Evolves j j'

cleared :
    (db db' : Db) (id k : String) (u : Journal → Journal) (j row : Journal)
    → get_journal db id ≡ some row
    → get_journal db' id ≡ some (u row)
    → (k ≢ id → get_journal db' k ≡ get_journal db k)
    → (row.status ≡ pending → Evolves row (u row))
    → row.status ≡ pending
    → get_journal db k ≡ some j
    → Kept db' k j
cleared db db' id k u j row known now other evolves p e = elim (String_discrete k id) [
  | yes hit ↦ rw hit (u row, now, rw (same_row hit) (evolves p))
  | no miss ↦ (j, other miss ∙ e, same)
]
  where
    same_row : k ≡ id → j ≡ row
    same_row hit = ground (arith, ap (get_journal db) hit)

LedgerEffect-Kept :
    {db db' : Db} (k : String) (j : Journal)
    → LedgerEffect db db'
    → RefersIn db db.entries
    → get_journal db k ≡ some j
    → Kept db' k j
unfolding get_journal
LedgerEffect-Kept k j unchanged _ e = (j, e, same)
LedgerEffect-Kept {db} k j (wrote ask input ids ts follows fresh accepted _) _ e =
    (j, get_journal-written_old _ _ ts ids db k (ap is_some e) ∙ e, same)
LedgerEffect-Kept {db} k j (posts id ts row known p) _ e =
    cleared db (post_journal ts id db) id k (mark_posted ts) j row known
      (get_journal-post_self ts id "" db row known) (get_journal-post_ne ts id "" db row k)
      (is_posted ts) p e
LedgerEffect-Kept {db} k j (denies id row known p) _ e =
    cleared db (deny_journal id db) id k mark_denied j row known
      (get_journal-deny_self id "" db row known) (get_journal-deny_ne id "" db row k) is_denied p e
LedgerEffect-Kept k j (sets_status id status) _ e = (j, e, same)
LedgerEffect-Kept k j (goes_elsewhere rest) _ e = (j, e, same)

-- Over every history from a sound state a journal keeps its id, key, accounts, amount, decision,
-- rule, reason, `decision_ref`, creator and creation time; only if it was pending may it have been
-- posted or denied since, so a posted or denied one is exactly as it was.
pub LedgerReach-Evolves :
    {db db' : Db} (k : String) (j : Journal)
    → LedgerReach db db'
    → Sound db
    → get_journal db k ≡ some j
    → (j' : Journal) × (get_journal db' k ≡ some j') × Evolves j j'
LedgerReach-Evolves k j here s e = (j, e, same)
LedgerReach-Evolves k j (next r step) s e =
    let refers = (LedgerReach-Sound r s).refers in
    let (j', found, before) = LedgerReach-Evolves k j r s e in
    let (j'', found', after) = LedgerEffect-Kept k j' (step_effect step refers) refers found in
    (j'', found', Evolves-trans before after)
