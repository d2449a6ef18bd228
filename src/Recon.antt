-- ===== src/Recon.antt =====
-- Weight discrepancies: backend/internal/recon/recon.go.
pub mod Service
pub mod Final
mod Examples
