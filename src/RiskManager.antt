-- ===== src/RiskManager.antt =====
-- The package risk_manager.
pub mod Models
pub mod DataChecks
pub mod Rules
pub mod Evaluate
