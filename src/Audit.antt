-- ===== src/Audit.antt =====
-- The audit log: backend/internal/audit.
pub mod Chain
pub mod Service
pub mod Intact
pub mod Emitted
mod Examples
