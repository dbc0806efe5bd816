-- ===== src/Closure/Service/Holds.antt =====
-- apps/closure-api/src/service.ts: what holds of the tables after the steps that the methods share.
use agentic_bank.Common.{ℕ, ◌≡◌, refl, Option, none, some, String, inl, inr, ltb, Bool-cases}
use agentic_bank.Closure.Types.{Scope, ClosureDb}
use agentic_bank.Closure.Repository.{get_idempotency, observe_clock, observe_after}
use agentic_bank.Closure.Service.{
  ServiceHost, ServiceResult, Request, read_idempotency_key, replay_or_conflict, unless_answered,
  with_key, keyed, with_tx, with_observed, observed_now,
}

abbrev pub at_time : Option ℕ → ClosureDb → ClosureDb
at_time t db = record db { last_observed_ms = t }

pub observe_after-at :
    (db : ClosureDb) (system_ms : ℕ) (last : Option ℕ)
    → db.last_observed_ms ≡ last
    → (t : Option ℕ) × ((observe_after db system_ms last).1 ≡ at_time t db)
unfolding observe_after
observe_after-at db system_ms none e = (some system_ms, refl)
observe_after-at db system_ms (some persisted) e = elim (Bool-cases (ltb system_ms persisted)) [
  | inl behind ↦ (db.last_observed_ms, rw behind)
  | inr ahead ↦ (some system_ms, rw ahead)
]

module _ {ℓ} (P : ClosureDb → Type ℓ) where
  unless_answered-holds :
      (db : ClosureDb) (o : Option ServiceResult) (rest : ServiceResult × ClosureDb)
      → P db
      → P rest.1
      → P (unless_answered db o rest).1
  unless_answered-holds db none rest h k = k
  unless_answered-holds db (some answer) rest h k = h

  with_key-holds :
      (host : ServiceHost) (db : ClosureDb) (scope : Scope) (o : Option String) (request : Request)
      (body : String → String → ServiceResult × ClosureDb)
      → P db
      → ((key hash : String) → P (body key hash).1)
      → P (with_key host db scope o request body).1
  with_key-holds host db scope none request body h k = h
  with_key-holds host db scope (some key) request body h k =
      let hash = host.request_hash request in
      unless_answered-holds db (replay_or_conflict (get_idempotency db scope key) hash)
        (body key hash) h (k key hash)

  pub keyed-holds :
      (host : ServiceHost) (db : ClosureDb) (scope : Scope) (idempotency_key : Option String)
      (request : Request) (body : String → String → ServiceResult × ClosureDb)
      → P db
      → ((key hash : String) → P (body key hash).1)
      → P (keyed host db scope idempotency_key request body).1
  unfolding keyed
  keyed-holds host db scope idempotency_key request body h k =
      with_key-holds host db scope (read_idempotency_key idempotency_key) request body h k

  pub with_tx-holds :
      (db : ClosureDb) (m : Option ClosureDb) (result : ServiceResult)
      → P db
      → ((after : ClosureDb) → m ≡ some after → P after)
      → P (with_tx db m result).1
  with_tx-holds db none result h k = h
  with_tx-holds db (some after) result h k = k after refl

  with_observed-holds :
      (o : Option ℕ × ClosureDb) (body : ℕ → ClosureDb → ServiceResult × ClosureDb)
      → P o.1
      → ((now : ℕ) → P (body now o.1).1)
      → P (with_observed o body).1
  with_observed-holds (none, db) body h k = h
  with_observed-holds (some now, db) body h k = k now

  pub observed_now-holds :
      (host : ServiceHost) (db : ClosureDb) (body : ℕ → ClosureDb → ServiceResult × ClosureDb)
      → ((t : Option ℕ) → P (at_time t db))
      → ((t : Option ℕ) (now : ℕ) → P (body now (at_time t db)).1)
      → P (observed_now host db body).1
  unfolding observed_now observe_clock
  observed_now-holds host db body h k =
      let (t, e) = observe_after-at db host.now db.last_observed_ms refl in
      with_observed-holds (observe_clock db host.now) body (rw e (h t)) (λ now. rw e (k t now))
