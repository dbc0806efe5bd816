-- ===== src/Ledger/Clear/Lifecycle.antt =====
-- packages/core/src/ledger.ts, `applyPendingJournal` and `rejectPendingJournal` as a whole.
use agentic_bank.Common.{ℕ, ◌≡◌, ◌≢◌, ◌⊎◌, Option, none, some, String, string_eq, option_eq, arith}
use agentic_bank.Store.{Journal, Db}
use agentic_bank.Store.Types.{pending}
use agentic_bank.Ledger.{get_journal}
use agentic_bank.Ledger.Clear.{
  post_journal, deny_journal, mark_posted, mark_denied, apply_pending_journal,
  reject_pending_journal,
}
use agentic_bank.Ledger.Clear.Effect.{get_journal-post_self, get_journal-deny_self}

-- How a clearing call ends, `mark` and `change` being what it does to a pending journal.
abbrev pub Clears :
    (Journal → Journal) → (Db → Db) → Db → Option Journal → Option (Option Journal × Db) → Type 0
Clears mark change db none r = r ≡ some (none, db)
Clears mark change db (some j) r =
    ((j.status ≡ pending) × (r ≡ some (some (mark j), change db)))
    ⊎ ((j.status ≢ pending) × (r ≡ some (some j, db)))

-- The check of `decision_ref` after the UPDATE never throws.
pub apply_pending-Clears :
    (db : Db) (id : String) (ts : ℕ) (o : Option Journal)
    → get_journal db id ≡ o
    → Clears (mark_posted ts) (post_journal ts id) db o (apply_pending_journal db id ts)
unfolding apply_pending_journal
apply_pending-Clears db id ts none known = rw known
apply_pending-Clears db id ts (some j) known =
    rw known (ground (arith, get_journal-post_self ts id "" db j known))

pub reject_pending-Clears :
    (db : Db) (id : String) (o : Option Journal)
    → get_journal db id ≡ o
    → Clears mark_denied (deny_journal id) db o (reject_pending_journal db id)
unfolding reject_pending_journal
reject_pending-Clears db id none known = rw known
reject_pending-Clears db id (some j) known =
    rw known (ground (arith, get_journal-deny_self id "" db j known))
