-- ===== src/Outbox.antt =====
-- The outbox: backend/internal/outbox.
pub mod Forwarder
pub mod Delivery
pub mod Lost
mod Examples
