-- ===== src/Lib.antt =====
-- A verification library for the core of the bank in packages/core: a small ledger with double
-- entry, a policy that decides on transfers, an audit table, the tools of the agents, the calls of
-- an operator, and the modules that serve a customer: an identity check, products, proposals, books.
--
-- The parts and where they are modelled.
--   Store: the tables of packages/core/src/db.ts as one record Db of lists of rows, with the row
--     types and unions of types.ts; Store/Args has the JSON values of tool arguments.
--   Time: seoulDayUtcRange and seoulCalendarDay of time.ts.
--   Ledger: the reading side of ledger.ts (getAccount, availableBalance, pendingOut, accountView,
--     customerOutboundOnSeoulDay, postedEntrySum, availableSumAll). Ledger/Write is
--     writeTransferJournal: `refusal` its guards, `write_new` its inserts, `settle_pair` its last
--     check. Ledger/Clear is applyPendingJournal and rejectPendingJournal.
--   Policy: `decide` of policy.ts, split where the code turns from the request to the accounts
--     and from the accounts to the money; Policy/Approval describes what it decides on its own.
--   Audit: writeAudit, getAudit, findAuditByIdempotency and redactArgs of audit.ts. Audit/Redact has
--     the expressions of redactArgs, Audit/Redact/Text and Audit/Redact/Kept describe on their own
--     which texts, keys and values it hides.
--   Operator: operatorApprove, operatorDeny and operatorSetAccountStatus of agents.ts.
--     Operator.antt has the approval, Operator/Deny the denial, Operator/Accounts the status write.
--   Agents: executeTool of agents.ts. Agents.antt has the sessions, the traces and the memory of a
--     session's decision; Agents/Args how arguments are read; Agents/Tools the balance, handoff
--     and open_dispute tools; Agents/Decide policy.decide; Agents/Transfer the transfer tool up to its decision and
--     Agents/Transfer/Write the rest; Agents/Refinement the transfer tool as a history of the
--     ledger; Agents/Execution the choice of the tool. What the host
--     gives to a call is the record Host, with `Number(text)` as a function.
--   Kyc: submitKyc and getKyc of kyc.ts; Kyc/Synthetic has the expressions that a field must meet.
--   Shopper: enrollProduct and dismissShopProduct of shopper.ts, Shopper/Products the products and
--     Shopper/Views the lists. Shopper/Onboarding takes submissions and enrollments together as a
--     transition system.
--   Treasury: the proposals of treasury.ts, their dismissal and executeProposal; Treasury/Plan the
--     amounts. Timeline: the steps that treasury.ts and kyc.ts show.
--   Bookkeeper: booksView and setBookDocument of bookkeeper.ts.
--   Closure: the service of apps/closure-api. Closure/Types has its tables beside the core's,
--     Closure/Repository the statements of repository.ts with its jobs in Closure/Repository/Jobs,
--     Closure/Snapshot the reading of snapshot.ts. Closure/Service is what the methods of service.ts
--     share; Closure/Register, Closure/Authorize, Closure/Approve, Closure/Commit, Closure/Reconcile
--     and Closure/Worker are the methods, over an executor as the interface ClosureExecutor, which
--     Closure/Executor fills with that of executor.ts. Closure/History is what the methods do to the
--     authorizations and the proofs, Closure/Calls the calls one after another.
--   Protocol: the state machine of packages/protocol/src/state.ts and the evaluator of its
--     evaluator.ts, with amounts as the numbers that BigInt reads.
--   Transfers: the ledger as a transition system, whose steps are a journal write that follows
--     the policy decision on the same state, the two ways of clearing a pending journal, a change
--     of an account's status and any change of the other tables.
--   Common: Boolean tests, integers, tables and what SQL does to them, JavaScript numbers and
--     texts, regular expressions by derivatives and their languages. Tests: a sample bank and runs on it.
--
-- How the program is read. A table is a list of rows in insertion order; a SELECT by a key is
-- `find`, UPDATE and DELETE are maps and filters, SUM is `sum_by`. A statement that breaks a
-- constraint of the schema throws; a throw is `none`. The calls of executeTool and of the operator and
-- the methods of the closure service run in one transaction (withTx), after which the database is then
-- as before. The calls of kyc.ts, shopper.ts and treasury.ts run in none: what a call that throws
-- leaves of audit rows, or of a session and a handoff, is not computed; in the histories it is one of the
-- changes of the other tables. The ids of randomUUID and the readings of the clock are arguments,
-- and so is every text that a caller sends. Timestamps are numbers of milliseconds: the code compares
-- ISO texts, which are ordered alike. Amounts are integers without a bound, but a journal write throws
-- where the new journal holds an INTEGER of 2^53 or more, which the driver refuses to read; the
-- other reads and the sums are exact below that. Asia/Seoul is nine hours ahead of UTC all year,
-- which is so since October 1988. A JavaScript number is an integer
-- or the printed form of any other one. No fuel is used but in the printing of an integer, where
-- it counts digits and starts above the number.
--
-- Not modelled: opening and migrating the database file, HTTP and the web console (I/O), the
-- seed data, the other lists that only read, and, so far, the trust module, the rest of
-- packages/protocol, and of apps/closure-api the migrations and the HTTP routes; of a signed object
-- the keys, the signatures, the hashes and the ids that are written and not read again. A column that holds the JSON of a list of texts is that
-- list: the code writes and reads it with JSON.stringify and JSON.parse alone.
pub mod Closure
pub mod Common
pub mod Store
pub mod Time
pub mod Ledger
pub mod Policy
pub mod Transfers
pub mod Audit
pub mod Operator
pub mod Agents
pub mod Timeline
pub mod Kyc
pub mod Shopper
pub mod Treasury
pub mod Bookkeeper
pub mod Protocol
mod Tests
