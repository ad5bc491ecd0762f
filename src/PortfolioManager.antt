-- ===== src/PortfolioManager.antt =====
-- The package portfolio_manager.
pub mod Snapshot
pub mod Ledger
pub mod Events
pub mod Manager
pub mod Conservation
pub mod Recovery
pub mod Repeats
pub mod Neighbours
