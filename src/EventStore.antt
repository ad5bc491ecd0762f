-- ===== src/EventStore.antt =====
-- The package event_store: an append-only log with an idempotency index.
pub mod Types
pub mod Codec
pub mod Platform
pub mod Canonical
pub mod Store
pub mod Log
