-- ===== src/Policy.antt =====
-- The policy engine: backend/internal/policy.
pub mod Values
pub mod Keys
pub mod Definitions
pub mod Cache
pub mod Rows
pub mod Resolve
pub mod Engine
pub mod Effective
pub mod Overrides
pub mod Moves
pub mod Runs
pub mod Settings
pub mod Types
mod Examples
