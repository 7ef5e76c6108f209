-- ===== src/Queue.antt =====
-- The durable queue of research jobs (narrative/job_queue.py and the modules it stands on).
pub mod Identity
pub mod Row
pub mod Codec
pub mod Payloads
pub mod Sql
pub mod Changes
pub mod Service
pub mod Validity
pub mod Distinct
pub mod Order
pub mod Tables
pub mod Claiming
pub mod Settling
pub mod Enqueueing
pub mod Repricing
pub mod Requests
pub mod Invariant
pub mod Preservation
pub mod Reading
pub mod Contract
pub mod Settlements
pub mod Exclusion
pub mod Priority
pub mod Worker
pub mod Samples
