-- ===== src/Tracking.antt =====
-- backend/internal/tracking: the events of the carriers, and the moves of the shipments they cause.
pub mod Status
pub mod Service
pub mod Contains
pub mod Moves
pub mod Polls
pub mod Keyed
mod Examples
