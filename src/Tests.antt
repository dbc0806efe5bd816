-- ===== src/Tests.antt =====
-- A small bank: the house's contra account, two accounts of one customer and one of another.
-- The opening deposit is posted, and a transfer between the customers is ready to be written.
mod Ledgers
mod Decisions
mod Records
mod Tools
mod Protocol
mod Evaluation
mod Onboarding
mod Treasury
mod Closure
use agentic_bank.Common.{
  ℕ, Bool, true, false, Option, none, some, List, [], ◌∷◌, String, ℤ, pos, int, find, ◌≡◌, ◌≢◌,
  refl, ◌⊎◌, inl, inr, arith, All, if◌then◌else◌, ◌===◌, string_eq, ===_of_eq,
}
use agentic_bank.Store.{Account, Journal, Entry, AuditRow, Db}
use agentic_bank.Store.Args.{obj, end}
use agentic_bank.Store.Types.{
  Product, AccountStatus, JournalStatus, Actor, Action, BlastRadius, Side, Decision, RuleId,
}
use agentic_bank.Ledger.Write.{TransferJournalInput, FreshIds, known}
use agentic_bank.Policy.{PolicyInput}

abbrev pub row_of : String → Option String → Product → Account
row_of id customer_id product = record {
  id = id;
  customer_id = customer_id;
  product = product;
  status = AccountStatus.opened;
}

abbrev pub alice : Account
alice = row_of "alice-chk" (some "alice") Product.checking

abbrev pub bob : Account
bob = row_of "bob-chk" (some "bob") Product.checking

abbrev pub savings : Account
savings = row_of "alice-sav" (some "alice") Product.savings

abbrev pub journal_of : String → String → String → ℤ → JournalStatus → Journal
journal_of id from to amount status = record {
  id = id;
  idempotency_key = some id;
  from_account_id = from;
  to_account_id = to;
  amount = amount;
  status = status;
  decision = none;
  rule_id = none;
  reason = none;
  decision_ref = none;
  created_by = none;
  created_at = 1_000_000_000;
  posted_at = none;
}

abbrev pub opening : Journal
opening = journal_of "j0" "house" "alice-chk" (pos 3_000_000) JournalStatus.posted

abbrev pub waiting_journal : Journal
waiting_journal = journal_of "j1" "alice-chk" "bob-chk" (pos 400_000) JournalStatus.pending

abbrev pub line : String → String → String → Side → ℤ → Bool → Entry
line id journal_id account_id side amount posted = record {
  id = id;
  journal_id = journal_id;
  account_id = account_id;
  side = side;
  amount = amount;
  posted = posted;
  created_at = 1_000_000_000;
}

abbrev pub decided : AuditRow
decided = record {
  audit_id = "a1";
  timestamp = 1_000_000_000;
  actor = Actor.agent;
  action = Action.policy_decide;
  args = obj end;
  decision = Decision.dual_control;
  rule_id = RuleId.dual_other_customer;
  reason = "transfer to another customer requires dual-control";
  why = "transfer to another customer requires dual-control";
  blast_radius = BlastRadius.high;
  session_id = some "s1";
  journal_id = none;
  agent = none;
}

abbrev pub bank : Db
bank = record {
  accounts = row_of "house" none Product.house ∷ alice ∷ savings ∷ bob ∷ [];
  journals = opening ∷ waiting_journal ∷ [];
  entries =
      line "e1" "j0" "house" Side.debit (pos 3_000_000) true
      ∷ line "e2" "j0" "alice-chk" Side.credit (pos 3_000_000) true
      ∷ line "e3" "j1" "alice-chk" Side.debit (pos 400_000) false
      ∷ line "e4" "j1" "bob-chk" Side.credit (pos 400_000) false
      ∷ [];
  audit = decided ∷ [];
  customers = "alice" ∷ "bob" ∷ [];
  sessions = [];
  traces = [];
  disputes = [];
  session_policy = [];
  proposal_dismissals = [];
  enrollment_attempts = [];
  kyc_cases = [];
  shop_dismissals = [];
  book_documents = [];
}

abbrev pub ask : PolicyInput
ask = record {
  from_account_id = "alice-chk";
  to_account_id = "bob-chk";
  amount = int (pos 1_200_000);
  actor_customer_id = some "alice";
  now = 1_000_000_000;
}

abbrev pub order : TransferJournalInput
order = record {
  idempotency_key = " k1 ";
  decision = known Decision.dual_control;
  decision_ref = "a1";
  from_account_id = "alice-chk";
  to_account_id = "bob-chk";
  amount = pos 1_200_000;
  rule_id = RuleId.dual_other_customer;
  reason = "transfer to another customer requires dual-control";
  created_by = none;
}

abbrev pub new_ids : FreshIds
new_ids = record { journal = "j2"; debit = "e5"; credit = "e6" }

-- A lookup finds a row of the table.
pub find_All {ℓ} :
    {A : Type ℓ} (P : A → Type ℓ) (p : A → Bool) (rows : List A) (a : A)
    → All P rows
    → find p rows ≡ some a
    → P a
unfolding find
find_All P p [] a h e = absurd (cc)
find_All P p (x ∷ rows) a h e = split (p x) refl (find_All P p rows a h.1)
  where
    split : (b : Bool) → p x ≡ b → (find p rows ≡ some a → P a) → P a
    split true hit rest = let same : a ≡ x = ground arith in rw same h.0
    split false miss rest = rest (ground arith)

pub texts_differ : (s t : String) → (s === t) ≡ false → s ≢ t
texts_differ s t h e = cc (h, ===_of_eq ⦃e = string_eq⦄ s t e)
