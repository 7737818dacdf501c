-- ===== src/Queue.antt =====
-- src/infrastructure/queue/sqlite-job-queue.ts: the rows of `jobs` and `tenant_queue_state`.
-- A table is the list of its rows in the order of insertion. An instant is its number of
-- milliseconds, which the ISO texts of the columns order alike.
pub mod Rows
pub mod Enqueue
pub mod Cancel
pub mod Lease
pub mod Settle
pub mod Unique
pub mod Steps
pub mod Calls
pub mod Insert
pub mod Machine
pub mod Keys
pub mod History
pub mod Redaction
pub mod Final
pub mod Moves
pub mod Transitions
pub mod Choice
pub mod Fairness
pub mod Ownership
pub mod Fencing
pub mod Owner
pub mod Attempts
pub mod Idempotent
pub mod Revocation
pub mod Limits
pub mod Changes
pub mod Revoked
mod Tests
