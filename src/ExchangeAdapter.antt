-- ===== src/ExchangeAdapter.antt =====
-- The package exchange_adapter.
pub mod Models
pub mod Retry
pub mod Adapter
