-- ===== src/Identity.antt =====
-- internal/identity: who may do what.
pub mod Rbac
pub mod Login
