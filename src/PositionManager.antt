-- ===== src/PositionManager.antt =====
-- The package position_manager.
pub mod States
pub mod Transitions
pub mod Notices
pub mod Snapshot
pub mod Pnl
pub mod Events
pub mod Effects
pub mod Running
pub mod Manager
pub mod Exits
pub mod Requests
pub mod Recovery
pub mod Lifecycle
pub mod Positions
