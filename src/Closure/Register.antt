-- ===== src/Closure/Register.antt =====
-- apps/closure-api/src/service.ts: `registerMandate`.
use agentic_bank.Common.{
  ℕ, ◌+◌, ◌*◌, false, not, Option, none, some, String, if◌then◌else◌, ◌===◌, string_eq, ◌>>=◌,
}
use Prim.Native.String.{◌++◌ as ◌<>◌}
use agentic_bank.Store.Args.{Json, null, str}
use agentic_bank.Protocol.Evaluator.{Mandate}
use agentic_bank.Closure.Types.{mandate_value, mandates, ClosureDb}
use agentic_bank.Closure.Repository.{save_mandate, save_idempotency}
use agentic_bank.Closure.Service.{
  ServiceHost, ServiceResult, answered, failed, thrown, mandate_request, keyed, observed_now,
  with_tx, minute_ms,
}
use agentic_bank.Closure.Snapshot.{
  LiveAccounts, unavailable, out_of_range, live, extract_live_account_snapshot,
}

abbrev pub text_or : String → Json → String
text_or default (str text) = text
text_or default _ = default

-- `value ?? AGENT_ID`
abbrev pub or_agent : Json → Json
or_agent null = str "synthetic-agent-1"
or_agent value = value

abbrev hour_ms : ℕ
hour_ms = 60 * minute_ms

mandate_of : ServiceHost → String → String → String → String → ℕ → ℕ → Mandate
mandate_of host customer_id agent_id from_account_id to_account_id max_amount now = record {
  issued_at = now;
  mandate_id = "mandate-" <> host.mandate_uuid;
  customer_id = customer_id;
  agent_id = agent_id;
  from_account_id = from_account_id;
  to_account_id = to_account_id;
  currency = "KRW";
  max_amount = max_amount;
  not_before = now;
  expires_at = now + hour_ms;
}

-- A mandate that its schema accepts is signed and stored.
unfoldable pub store_mandate :
    ServiceHost → ClosureDb → String → String → Mandate → ServiceResult × ClosureDb
store_mandate host db key hash mandate =
    if host.valid_mandate mandate
    then with_tx db
        (save_mandate db mandate.mandate_id mandate.customer_id mandate >>= λ saved.
          save_idempotency saved mandates key hash 201 (mandate_value mandate.mandate_id mandate))
        (answered 201 false (mandate_value mandate.mandate_id mandate))
    else (failed 400 "MALFORMED_MANDATE", db)

-- The schema refuses an amount that is no amount.
unfoldable pub mandate_valued :
    ServiceHost
    → ClosureDb
    → String
    → String
    → String
    → String
    → String
    → String
    → ℕ
    → Option ℕ
    → ServiceResult × ClosureDb
unfolding store_mandate mandate_of
mandate_valued host db key hash customer_id agent_id from_id to_id now none =
    (failed 400 "MALFORMED_MANDATE", db)
mandate_valued host db key hash customer_id agent_id from_id to_id now (some amount) =
    store_mandate host db key hash (mandate_of host customer_id agent_id from_id to_id amount now)

unfoldable pub mandate_between :
    ServiceHost
    → ClosureDb
    → String
    → String
    → String
    → String
    → String
    → String
    → String
    → LiveAccounts
    → ServiceResult × ClosureDb
unfolding mandate_valued
mandate_between host db key hash customer_id agent_id from_id to_id max_amount unavailable =
    (failed 400 "UNKNOWN_ACCOUNT", db)
mandate_between host db key hash customer_id agent_id from_id to_id max_amount out_of_range =
    (thrown, db)
mandate_between host db key hash customer_id agent_id from_id to_id max_amount (live accounts) =
    if not (accounts.from_owner_customer_id === customer_id)
    then (failed 400 "UNKNOWN_ACCOUNT", db)
    else observed_now host db (λ now observed.
      mandate_valued host observed key hash customer_id agent_id from_id to_id now
        (host.amount_of max_amount))

unfoldable pub register_keyed :
    ServiceHost
    → ClosureDb
    → String
    → String
    → String
    → String
    → String
    → String
    → String
    → ServiceResult × ClosureDb
unfolding mandate_between
register_keyed host db customer_id agent_id from_id to_id max_amount key hash =
    if not (customer_id === "syn_alice")
    then (failed 400 "UNKNOWN_CUSTOMER", db)
    else mandate_between host db key hash customer_id agent_id from_id to_id max_amount
        (extract_live_account_snapshot db.core from_id to_id host.live_at)

unfoldable pub register_mandate :
    ServiceHost
    → ClosureDb
    → Option String
    → Json
    → Json
    → Json
    → Json
    → Json
    → ServiceResult × ClosureDb
unfolding register_keyed
register_mandate host db idempotency_key customer from to max_amount agent =
    keyed host db mandates idempotency_key
      (mandate_request customer from to max_amount (or_agent agent))
      (register_keyed host db (text_or "" customer) (text_or "synthetic-agent-1" (or_agent agent))
        (text_or "" from) (text_or "" to) (text_or "" max_amount))
