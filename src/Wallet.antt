-- ===== src/Wallet.antt =====
-- backend/internal/wallet: the two-phase wallet, Reserve, then Confirm or Release.
pub mod Rows
pub mod Repo
pub mod Service
pub mod Totals
pub mod Effects
pub mod Consistent
pub mod Postings
pub mod Invariant
pub mod Replays
pub mod Breaks
pub mod Guards
pub mod Runs
mod Examples
