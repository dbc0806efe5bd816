-- ===== src/Bookkeeper/Household.antt =====
-- packages/core/src/bookkeeper.ts, `booksView`: the totals of the household.
use agentic_bank.Common.{
  ◌≡◌, refl, sym, ◌∙◌, Bool, true, false, not, ◌&&◌, ◌||◌, some, String, String_discrete, ℤ, pos,
  ◌-ℤ◌, if◌then◌else◌, ◌===◌, string_eq, option_eq, select, sum_by, sum_by-select, sum_by-map_rows,
  sum_by-order_desc, sum_by-sub, sum_by-cong, int_laws,
}
use agentic_bank.Store.{Journal, Db}
use agentic_bank.Store.Types.{
  JournalStatus, RuleId, rule_id_eq, journal_status_eq, JournalStatus_discrete,
}
use agentic_bank.Treasury.{copy_for_journal_status}
use agentic_bank.Bookkeeper.{
  BookFlowKind, BookFlowKind_discrete, book_flow_kind_eq, book_flow, flow_kind, is_mine,
  is_shown_journal, household_flows, total_of, books_view,
}

-- What a journal brings to the accounts of the customer and takes from them.
abbrev pub net_of : Db → String → Journal → ℤ
net_of db customer_id j =
    (if is_mine db customer_id j.to_account_id then j.amount else pos 0)
    -ℤ (if is_mine db customer_id j.from_account_id then j.amount else pos 0)

abbrev pub counts : Journal → Bool
counts j = not (j.rule_id === some RuleId.seed_opening) && j.status === JournalStatus.posted

-- What a journal adds to the total of a kind.
abbrev share : Db → String → BookFlowKind → Journal → ℤ
share db customer_id kind j =
    if is_shown_journal db customer_id j
    then (if (book_flow db customer_id j).copy === "완료"
          && (book_flow db customer_id j).kind === kind
        then j.amount
        else pos 0)
    else pos 0

total-share :
    (db : Db) (customer_id : String) (kind : BookFlowKind)
    → total_of kind (household_flows db customer_id)
      ≡ sum_by (share db customer_id kind) db.journals
unfolding total_of household_flows book_flow
total-share db customer_id kind =
    sum_by-select _ _ _
    ∙ sum_by-map_rows _ (book_flow db customer_id) _
    ∙ sum_by-select _ (is_shown_journal db customer_id) _
    ∙ sum_by-order_desc _ (λ (j : Journal). j.created_at) db.journals
    ∙ sum_by-cong _ _ db.journals (λ j. refl)

completed-status :
    (status : JournalStatus)
    → (copy_for_journal_status status === "완료") ≡ (status === JournalStatus.posted)
unfolding copy_for_journal_status String_discrete JournalStatus_discrete
completed-status JournalStatus.posted = refl
completed-status JournalStatus.pending = refl
completed-status JournalStatus.denied = refl

-- One journal, by whose the two accounts are, whether the seed wrote it, and whether it is posted.
net-cases :
    (from to seeded posted : Bool) (amount : ℤ)
    → (if not seeded && (from || to)
          then (if posted && flow_kind from to === BookFlowKind.inflow then amount else pos 0)
          else pos 0)
        -ℤ (if not seeded && (from || to)
            then (if posted && flow_kind from to === BookFlowKind.outflow then amount else pos 0)
            else pos 0)
      ≡ (if not seeded && posted
          then (if to then amount else pos 0) -ℤ (if from then amount else pos 0)
          else pos 0)
unfolding flow_kind BookFlowKind_discrete
net-cases from to true posted amount = omega int_laws
net-cases true true false true amount = omega int_laws
net-cases true true false false amount = omega int_laws
net-cases true false false true amount = omega int_laws
net-cases true false false false amount = omega int_laws
net-cases false true false true amount = omega int_laws
net-cases false true false false amount = omega int_laws
net-cases false false false true amount = omega int_laws
net-cases false false false false amount = omega int_laws

flow-net :
    (db : Db) (customer_id : String) (j : Journal)
    → share db customer_id BookFlowKind.inflow j -ℤ share db customer_id BookFlowKind.outflow j
      ≡ (if counts j then net_of db customer_id j else pos 0)
unfolding book_flow is_shown_journal
flow-net db customer_id j = rw (completed-status j.status) (
    net-cases (is_mine db customer_id j.from_account_id) (is_mine db customer_id j.to_account_id)
      (j.rule_id === some RuleId.seed_opening) (j.status === JournalStatus.posted) j.amount)

-- What the books show as received less what they show as spent is what the posted journals, but
-- for the openings of the seed, have brought to the customer's accounts less what they have taken
-- from them: a move between two of these accounts counts for nothing.
pub books_view-net :
    (locale : ℤ → String) (db : Db) (customer_id : String)
    → (books_view locale db customer_id).in_total -ℤ (books_view locale db customer_id).out_total
      ≡ sum_by (net_of db customer_id) (select counts db.journals)
unfolding books_view
books_view-net locale db customer_id =
    rw
      (
        total-share db customer_id BookFlowKind.inflow,
        total-share db customer_id BookFlowKind.outflow,
      )
      (sym (
          sum_by-sub (share db customer_id BookFlowKind.inflow)
            (share db customer_id BookFlowKind.outflow) db.journals)
        ∙ sum_by-cong _ _ db.journals (flow-net db customer_id)
        ∙ sym (sum_by-select (net_of db customer_id) counts db.journals))
