-- ===== src/Idempotency.antt =====
-- Idempotency keys: backend/internal/idempotency/idempotency.go.
pub mod Middleware
pub mod Replay
mod Examples
