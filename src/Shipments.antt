-- ===== src/Shipments.antt =====
-- backend/internal/shipments: the two-phase booking with a carrier and the life of a shipment.
pub mod Rows
pub mod Store
pub mod Service
pub mod Moves
pub mod Phases
pub mod Steps
pub mod Calls
pub mod Sound
pub mod Booking
pub mod Unready
mod Examples
