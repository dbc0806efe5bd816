-- ===== src/Ledger/Clear.antt =====
-- packages/core/src/ledger.ts: a pending journal is posted or denied by an operator's call.
pub mod Lifecycle
pub mod Effect
pub mod Rows
use agentic_bank.Common.{
  ℕ, Bool, true, Option, none, some, String, if◌then◌else◌, ◌===◌, string_eq, option_eq, update,
}
use agentic_bank.Store.{Journal, Entry, Db}
use agentic_bank.Store.Types.{JournalStatus}
use agentic_bank.Ledger.{get_journal, journal_by_id}

abbrev pub entry_of_journal : String → Entry → Bool
entry_of_journal i e = e.journal_id === i

abbrev pub mark_posted : ℕ → Journal → Journal
mark_posted ts j = record j { status = JournalStatus.posted; posted_at = some ts }

abbrev pub mark_denied : Journal → Journal
mark_denied j = record j { status = JournalStatus.denied }

abbrev pub post_entry : Entry → Entry
post_entry e = record e { posted = true }

-- The two UPDATE statements of `applyPendingJournal`.
unfoldable pub post_journal : ℕ → String → Db → Db
post_journal ts journal_id db = record db {
  journals = update (journal_by_id journal_id) (mark_posted ts) db.journals;
  entries = update (entry_of_journal journal_id) post_entry db.entries;
}

unfoldable pub deny_journal : String → Db → Db
deny_journal journal_id db = record db {
  journals = update (journal_by_id journal_id) mark_denied db.journals;
}

abbrev same_ref : Option Journal → Option Journal → Bool
same_ref (some j) (some k) = j.decision_ref === k.decision_ref
same_ref _ _ = true

-- `throw` if an update has changed `decision_ref`.
abbrev keep_ref : Option Journal → String → Db → Option (Option Journal × Db)
keep_ref journal journal_id db =
    let fresh = get_journal db journal_id in
    if same_ref journal fresh then some (fresh, db) else none

abbrev clear : (Db → Db) → Db → String → Option Journal → Option (Option Journal × Db)
clear change db journal_id none = some (none, db)
clear change db journal_id (some j) = elim j.status [
  | JournalStatus.pending ↦ keep_ref (some j) journal_id (change db)
  | _ ↦ some (some j, db)
]

unfoldable pub apply_pending_journal : Db → String → ℕ → Option (Option Journal × Db)
apply_pending_journal db journal_id ts =
    clear (post_journal ts journal_id) db journal_id (get_journal db journal_id)

unfoldable pub reject_pending_journal : Db → String → Option (Option Journal × Db)
reject_pending_journal db journal_id =
    clear (deny_journal journal_id) db journal_id (get_journal db journal_id)
