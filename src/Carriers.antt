-- ===== src/Carriers.antt =====
-- backend/internal/carriers: the circuit breaker in front of a carrier.
pub mod Breaker
pub mod Probes
mod Examples
