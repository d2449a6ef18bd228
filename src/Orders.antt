-- ===== src/Orders.antt =====
-- backend/internal/orders: the canonical order record and its state machine.
pub mod State
pub mod Rows
pub mod Repo
pub mod Service
pub mod Update
pub mod Moves
pub mod Calls
pub mod History
pub mod Final
mod Examples
