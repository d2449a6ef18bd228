-- ===== src/Pricing.antt =====
-- backend/internal/pricing: what a carrier's rate card asks for a parcel.
pub mod Engine
pub mod Weights
pub mod Cards
mod Examples
