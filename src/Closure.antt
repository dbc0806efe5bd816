-- ===== src/Closure.antt =====
-- apps/closure-api/src: the service that authorizes a transfer under a mandate, executes it once
-- and closes it with a proof.
pub mod Types
pub mod Repository
pub mod Snapshot
pub mod Service
pub mod Register
pub mod Authorize
pub mod Approve
pub mod Reconcile
pub mod Commit
pub mod Executor
pub mod Worker
pub mod History
pub mod Calls
