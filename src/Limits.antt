-- ===== src/Limits.antt =====
-- The usage caps: backend/internal/limits/limits.go.
pub mod Guard
pub mod Caps
mod Examples
