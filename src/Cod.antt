-- ===== src/Cod.antt =====
-- Cash on delivery: backend/internal/cod/cod.go.
pub mod Service
pub mod Settled
pub mod Runs
pub mod Credits
pub mod Retries
mod Examples
