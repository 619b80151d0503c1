-- ===== src/Nodes.antt =====
-- The lifecycle of nodes: internal/nodelifecycle, with the objects of internal/corecontracts.
pub mod Metadata
pub mod Lifecycle
