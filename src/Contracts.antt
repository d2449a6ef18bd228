-- ===== src/Contracts.antt =====
-- Contracts: backend/internal/contracts/contracts.go.
pub mod Rows
pub mod Coerce
pub mod Service
pub mod Signed
pub mod Terms
mod Examples
