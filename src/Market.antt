-- ===== src/Market.antt =====
-- The market of modules: internal/market.
pub mod Dependencies
