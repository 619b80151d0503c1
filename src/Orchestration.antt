-- ===== src/Orchestration.antt =====
-- internal/orchestration: changes, their policy and approvals, and the durable jobs that run them.
pub mod Events
pub mod Job
pub mod Policy
pub mod Config
pub mod Change
pub mod ExecutionGuard
