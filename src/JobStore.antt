-- ===== src/JobStore.antt =====
-- The in-memory job store: src/appraisal_review/adapters/local/job_store.py.
pub mod Model
pub mod Read
pub mod Submit
pub mod Lease
pub mod Finish
pub mod Manage
pub mod Dispatch
pub mod Consistent
pub mod Evolution
pub mod Sound
pub mod Touch
pub mod History
pub mod Steps
pub mod Rules
pub mod Routed
pub mod Schedule
pub mod Guarantees
pub mod Refusals
pub mod Finality
pub mod Tokens
pub mod Fencing
pub mod Replays
pub mod Promises
pub mod Publication
pub mod Scenario
mod Witness
