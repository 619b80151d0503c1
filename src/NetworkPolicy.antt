-- ===== src/NetworkPolicy.antt =====
-- internal/networkpolicy: staged network changes.
pub mod ChangeEvents
pub mod Forwarding
pub mod ChangePlan
pub mod ChangeMachine
