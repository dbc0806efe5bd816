-- ===== src/Closure/History/Register.antt =====
-- apps/closure-api/src/service.ts: `registerMandate` as a history of the
-- authorizations and the proofs.
use agentic_bank.Common.{
  Bool, ℕ, refl, inl, inr, false, Option, none, some, String, ◌===◌, string_eq, >>=-some, ◌>>=◌,
  Bool-cases,
}
use agentic_bank.Store.Args.{Json}
use agentic_bank.Protocol.Evaluator.{Mandate}
use agentic_bank.Closure.Types.{mandate_value, mandates, ClosureDb}
use agentic_bank.Closure.Repository.{save_idempotency, save_mandate}
use agentic_bank.Closure.Service.{ServiceHost, answered, mandate_request}
use agentic_bank.Closure.Snapshot.{LiveAccounts, unavailable, out_of_range, live}
use agentic_bank.Closure.Service.Holds.{keyed-holds, with_tx-holds, observed_now-holds, at_time}
use agentic_bank.Closure.Register.{
  store_mandate, text_or, or_agent, mandate_valued, mandate_between, register_keyed,
  register_mandate,
}
use agentic_bank.Closure.History.{elsewhere, ClosureReach, here, next}
use agentic_bank.Closure.History.Tables.{save_mandate-Reach, save_idempotency-Reach}

module _ (host : ServiceHost) {quiet : Bool} {start db : ClosureDb} (key hash : String)
    (r : ClosureReach quiet start db) where
  store_mandate-Reach :
      (mandate : Mandate) → ClosureReach quiet start (store_mandate host db key hash mandate).1
  unfolding store_mandate
  store_mandate-Reach mandate =
      let value = mandate_value mandate.mandate_id mandate in
      let saves = save_mandate db mandate.mandate_id mandate.customer_id mandate in
      let keeps = λ (saved : ClosureDb). save_idempotency saved mandates key hash 201 value in
      elim (Bool-cases (host.valid_mandate mandate)) [
        | inr malformed ↦ rw (store_mandate, malformed) r
        | inl valid ↦
            rw (store_mandate, valid)
              (with_tx-holds (λ d. ClosureReach quiet start d) db (saves >>= keeps)
                (answered 201 false value) r
                (λ after e.
                  let (saved, s, k) = >>=-some saves keeps e in
                  save_idempotency-Reach
                    (save_mandate-Reach r mandate.mandate_id mandate.customer_id mandate s) mandates
                    key hash 201 value k))
      ]

  mandate_valued-Reach :
      (customer agent from to : String) (now : ℕ) (amount : Option ℕ)
      → ClosureReach quiet start
          (mandate_valued host db key hash customer agent from to now amount).1
  unfolding mandate_valued
  mandate_valued-Reach customer agent from to now none = r
  mandate_valued-Reach customer agent from to now (some amount) = store_mandate-Reach _

module _ (host : ServiceHost) (db : ClosureDb) where
  mandate_between-Reach :
      (key hash customer agent from to max_amount : String) (accounts : LiveAccounts)
      → ClosureReach false db
          (mandate_between host db key hash customer agent from to max_amount accounts).1
  unfolding mandate_between
  mandate_between-Reach key hash customer agent from to max_amount unavailable = here
  mandate_between-Reach key hash customer agent from to max_amount out_of_range = here
  mandate_between-Reach key hash customer agent from to max_amount (live accounts) =
      elim (Bool-cases (accounts.from_owner_customer_id === customer)) [
        | inr other ↦ rw (mandate_between, other) here
        | inl owned ↦
            rw (mandate_between, owned)
              (observed_now-holds (λ d. ClosureReach false db d) host db
                (λ now observed.
                  mandate_valued host observed key hash customer agent from to now
                    (host.amount_of max_amount))
                (λ t. next here (elsewhere refl refl) (λ _. refl))
                (λ t now.
                  let observed : ClosureReach false db (at_time t db) =
                    next here (elsewhere refl refl) (λ _. refl) in
                  mandate_valued-Reach host key hash observed customer agent from to now
                    (host.amount_of max_amount)))
      ]

  register_keyed-Reach :
      (customer agent from to max_amount key hash : String)
      → ClosureReach false db (register_keyed host db customer agent from to max_amount key hash).1
  unfolding register_keyed
  register_keyed-Reach customer agent from to max_amount key hash =
      elim (Bool-cases (customer === "syn_alice")) [
        | inr unknown ↦ rw (register_keyed, unknown) here
        | inl known ↦
            rw (register_keyed, known)
              (mandate_between-Reach key hash customer agent from to max_amount _)
      ]

  -- A registration is a history.
  pub register_mandate-Reach :
      (idempotency_key : Option String) (customer from to max_amount agent : Json)
      → ClosureReach false db
          (register_mandate host db idempotency_key customer from to max_amount agent).1
  unfolding register_mandate
  register_mandate-Reach idempotency_key customer from to max_amount agent =
      keyed-holds (λ d. ClosureReach false db d) host db mandates idempotency_key
        (mandate_request customer from to max_amount (or_agent agent))
        (register_keyed host db (text_or "" customer) (text_or "synthetic-agent-1" (or_agent agent))
          (text_or "" from) (text_or "" to) (text_or "" max_amount))
        here (λ key hash. register_keyed-Reach _ _ _ _ _ key hash)
