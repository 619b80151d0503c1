-- ===== src/Orchestration/Job.antt =====
-- internal/orchestration/job: durable jobs.
pub mod Model
pub mod Steps
pub mod Memory
pub mod Lifecycle
pub mod Consistent
pub mod Refines
pub mod History
pub mod Claims
pub mod Delay
pub mod RetryRequest
pub mod ManualRetry
pub mod TimelineEntries
pub mod Timeline
pub mod Leases
pub mod Idempotence
