-- ===== src/Transfers/References.antt =====
-- FOREIGN KEY (journal_id) and FOREIGN KEY (account_id) of packages/core/src/db.ts over the writes
-- to the ledger.
use agentic_bank.Common.{
  ℕ, ◌≡◌, ap, ◌∙◌, Bool, true, none, String, All, All-append, All-map, All-update, is_some,
}
use agentic_bank.Store.{Journal, Db}
use agentic_bank.Ledger.{get_account, get_journal}
use agentic_bank.Ledger.Spendable.{get_journal-written_old, get_journal-written_new}
use agentic_bank.Ledger.Write.{FreshIds}
use agentic_bank.Ledger.Write.Effect.{RefersIn, written}
use agentic_bank.Ledger.Clear.{post_journal, deny_journal}
use agentic_bank.Ledger.Clear.Effect.{is_some-post, is_some-deny}

pub RefersIn-written :
    (j : Journal) (posted : Bool) (ts : ℕ) (ids : FreshIds) (db : Db)
    → get_journal db j.id ≡ none
    → RefersIn db db.entries
    → RefersIn (written j posted ts ids db) (written j posted ts ids db).entries
unfolding written
RefersIn-written j posted ts ids db new refers =
    let found = λ (i : String) (h : is_some (get_journal db i) ≡ true).
      ap is_some (get_journal-written_old j posted ts ids db i h) ∙ h in
    let own = ap is_some (get_journal-written_new j posted ts ids db new) in
    All-append _ _ _
      (All-append _ db.entries _ (All-map _ _ db.entries (λ e. found e.journal_id) refers)
        (own, tt))
      (own, tt)

pub RefersIn-post :
    (ts : ℕ) (id : String) (db : Db) (j : Journal)
    → RefersIn db db.entries
    → RefersIn (post_journal ts id db) (post_journal ts id db).entries
unfolding post_journal
RefersIn-post ts id db j refers =
    All-update _ _ _ db.entries (λ e h. h)
      (All-map _ _ db.entries (λ e h. is_some-post ts id "" db j e.journal_id ∙ h) refers)

pub RefersIn-deny :
    (id : String) (db : Db) (j : Journal)
    → RefersIn db db.entries
    → RefersIn (deny_journal id db) (deny_journal id db).entries
unfolding deny_journal
RefersIn-deny id db j refers =
    All-map _ _ db.entries (λ e h. is_some-deny id "" db j e.journal_id ∙ h) refers

-- The account of every entry is in the table.
abbrev pub AccountsIn : Db → Type 0
AccountsIn db = All (λ e. is_some (get_account db e.account_id) ≡ true) db.entries

pub AccountsIn-written :
    (j : Journal) (posted : Bool) (ts : ℕ) (ids : FreshIds) (db : Db)
    → is_some (get_account db j.from_account_id) ≡ true
    → is_some (get_account db j.to_account_id) ≡ true
    → AccountsIn db
    → AccountsIn (written j posted ts ids db)
unfolding written get_account
AccountsIn-written j posted ts ids db from to old =
    All-append _ _ _ (All-append _ db.entries _ old (from, tt)) (to, tt)

pub AccountsIn-post :
    (ts : ℕ) (id : String) (db : Db) → AccountsIn db → AccountsIn (post_journal ts id db)
unfolding post_journal get_account
AccountsIn-post ts id db old = All-update _ _ _ db.entries (λ e h. h) old
