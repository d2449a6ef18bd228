-- ===== src/Carriers/Examples.antt =====
-- The breaker with its production settings, and the theorems applied to it.
use pikship.Prelude.{refl, [], ◌∷◌, arith, inl}
use pikship.Carriers.Breaker.{
  half_open, Breaker, default_breaker, other, success, Attempt, attempts, asks, succeeds, fails,
  handle_all,
}
use pikship.Carriers.Probes.{IsBounded, handle_all-IsBounded, IsStuck, probes_lost}

-- One probe is in flight.
abbrev testing : Breaker
testing = record default_breaker { state = half_open; failures = 5; in_flight = 1 }

abbrev stuck : Breaker
stuck = record testing { in_flight = 2 }

abbrev bad_address : Attempt
bad_address = record { now = 100; later = 200; outcome = other }

abbrev good : Attempt
good = record { now = 900_000_000_000; later = 900_000_000_100; outcome = success }

handle_all-IsBounded_example :
    IsBounded (handle_all (fails 1 ∷ fails 2 ∷ asks 3 ∷ succeeds ∷ []) default_breaker)
handle_all-IsBounded_example =
    handle_all-IsBounded (fails 1 ∷ fails 2 ∷ asks 3 ∷ succeeds ∷ []) default_breaker (omega arith)
      (omega arith) (inl (refl, refl, omega arith))

probes_lost_example : IsStuck (attempts (bad_address ∷ []) testing).1
probes_lost_example = probes_lost (bad_address ∷ []) testing refl refl (omega arith)
