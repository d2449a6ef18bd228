-- ===== src/Sessions.antt =====
-- Sessions: backend/internal/auth.
pub mod Cache
pub mod Service
pub mod Shut
pub mod Revoked
mod Examples
