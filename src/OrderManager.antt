-- ===== src/OrderManager.antt =====
-- The package order_manager.
pub mod States
pub mod Transitions
pub mod Notices
pub mod Snapshot
pub mod Events
pub mod Effects
pub mod Running
pub mod Status
pub mod Manager
pub mod Requests
pub mod Calls
pub mod StepsSound
pub mod PlacingSound
pub mod Recovery
pub mod Lifecycle
pub mod Orders
