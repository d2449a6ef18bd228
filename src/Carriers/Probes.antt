-- ===== src/Carriers/Probes.antt =====
-- What the circuit breaker (backend/internal/carriers/breaker.go) keeps, when it opens, and how its
-- probes are lost.
use pikship.Prelude.{
  ℕ, ◌+◌, ◌-◌, ◌≤◌, ◌<◌, ◌≡◌, refl, ◌⊎◌, Bool, true, false, List, [], ◌∷◌, arith, leb,
  if◌then◌else◌,
}
use pikship.Carriers.Breaker.{
  BreakerState, closed, tripped, half_open, Breaker, allow, record_success, record_failure, success,
  transient, other, Attempt, Answer, circuit_open, answered, guarded, attempts, Event, asks,
  succeeds, fails, handle, handle_all,
}

-- Closed with fewer failures than the threshold, tripped, or half open with at most the allowed
-- probes in flight and fewer successes than close it.
abbrev pub IsBounded : Breaker → Type 0
IsBounded b =
    ((b.state ≡ closed) × (b.in_flight ≡ 0) × (b.failures < b.threshold))
    ⊎ ((b.state ≡ tripped) × (b.in_flight ≡ 0))
    ⊎ ((b.state ≡ half_open)
        × (b.in_flight ≤ b.half_open_probe)
        × (b.successes < b.half_open_probe))

-- The settings, which no event changes.
abbrev pub SameSettings : Breaker → Breaker → Type 0
SameSettings b t =
    (t.threshold ≡ b.threshold)
    × (t.reset_timeout ≡ b.reset_timeout)
    × (t.half_open_probe ≡ b.half_open_probe)

handle-IsBounded :
    (e : Event) (b : Breaker)
    → 0 < b.half_open_probe
    → 0 < b.threshold
    → IsBounded b
    → IsBounded (handle e b) × SameSettings b (handle e b)
unfolding handle allow record_success record_failure
handle-IsBounded (asks now) b probe some_failures ok = ground (arith, ok)
handle-IsBounded succeeds b probe some_failures ok = ground (arith, ok)
handle-IsBounded (fails now) b probe some_failures ok = ground (arith, ok)

-- Whatever callers ask and report, in any order and at any times, a breaker with a positive
-- threshold and probe limit stays within bounds: closed it has fewer failures than the
-- threshold, half open at most the allowed probes in flight and fewer successes than close it,
-- and no probe in flight otherwise.
pub handle_all-IsBounded :
    (es : List Event) (b : Breaker)
    → 0 < b.half_open_probe
    → 0 < b.threshold
    → IsBounded b
    → IsBounded (handle_all es b)
handle_all-IsBounded [] b probe some_failures ok = ok
handle_all-IsBounded (e ∷ es) b probe some_failures ok =
    let (next, same) = handle-IsBounded e b probe some_failures ok in
    handle_all-IsBounded es (handle e b) (ground (arith, same)) (ground (arith, same)) next

-- Half open with every probe in flight.
abbrev pub IsStuck : Breaker → Type 0
IsStuck b = (b.state ≡ half_open) × (b.half_open_probe ≤ b.in_flight)

-- No call reached the carrier.
abbrev pub all_open : List Answer → Bool
all_open [] = true
all_open (circuit_open ∷ xs) = all_open xs
all_open (answered o ∷ xs) = false

guarded_stuck : (a : Attempt) (b : Breaker) → IsStuck b → guarded a b ≡ (circuit_open, b)
unfolding guarded allow
guarded_stuck a b stuck = ground (arith, stuck)

-- A half-open breaker with every probe taken and no call under way lets no later call through,
-- at whatever time, and does not change.
pub stuck_for_good :
    (as_made : List Attempt) (b : Breaker)
    → IsStuck b
    → (all_open (attempts as_made b).0 ≡ true) × ((attempts as_made b).1 ≡ b)
stuck_for_good [] b stuck = (refl, refl)
stuck_for_good (a ∷ rest) b stuck = rw (guarded_stuck a b stuck) (stuck_for_good rest b stuck)

-- The probes left.
abbrev pub room : Breaker → ℕ
room b = b.half_open_probe - b.in_flight

abbrev pub is_other : Attempt → Bool
is_other a = elim a.outcome [ success ↦ false | transient ↦ false | other ↦ true ]

-- Attempts that end in an error that is not transient.
abbrev pub all_other : List Attempt → Bool
all_other [] = true
all_other (a ∷ rest) = if is_other a then all_other rest else false

abbrev pub count_attempts : List Attempt → ℕ
count_attempts [] = 0
count_attempts (_ ∷ rest) = count_attempts rest + 1

guarded_other :
    (a : Attempt) (b : Breaker)
    → is_other a ≡ true
    → b.state ≡ half_open
    → let t = (guarded a b).1 in (t.state ≡ half_open) × (room t ≡ room b - 1)
unfolding guarded allow
guarded_other a b o half = ground (arith, o, half)

-- In a half-open breaker, as many calls in turn as probes are left, each ending in an error that
-- is not transient, leave it half open with every probe taken.
pub probes_lost :
    (as_made : List Attempt) (b : Breaker)
    → all_other as_made ≡ true
    → b.state ≡ half_open
    → room b ≤ count_attempts as_made
    → IsStuck (attempts as_made b).1
probes_lost [] b others half enough = (half, omega (arith, enough))
probes_lost (a ∷ rest) b others half enough =
    let o : is_other a ≡ true = ground (arith, others) in
    let (half_after, fewer) = guarded_other a b o half in
    probes_lost rest (guarded a b).1 (ground (arith, others)) half_after
      (omega (arith, fewer, enough))

abbrev pub failing : List ℕ → List Event
failing [] = []
failing (now ∷ rest) = fails now ∷ failing rest

abbrev pub count_times : List ℕ → ℕ
count_times [] = 0
count_times (_ ∷ rest) = count_times rest + 1

-- Tripped when the failures reach the threshold, closed before.
abbrev pub tripped_at : ℕ → ℕ → BreakerState
tripped_at threshold failures = if leb threshold failures then tripped else closed

fails_once :
    (now : ℕ) (b : Breaker)
    → b.state ≡ tripped_at b.threshold b.failures
    → let t = handle (fails now) b in
      (t.state ≡ tripped_at t.threshold t.failures)
      × (t.threshold ≡ b.threshold)
      × (t.failures ≡ b.failures + 1)
unfolding handle record_failure
fails_once now b at = ground (arith, at)

-- From a breaker that is tripped or closed as its failures say, failures reported one after
-- another trip it exactly when they reach the threshold.
pub trips_at_threshold :
    (times : List ℕ) (b : Breaker)
    → b.state ≡ tripped_at b.threshold b.failures
    → (handle_all (failing times) b).state ≡ tripped_at b.threshold (b.failures + count_times times)
trips_at_threshold [] b at = ground (arith, at)
trips_at_threshold (now ∷ rest) b at =
    let (next, same, more) = fails_once now b at in
    let tail = trips_at_threshold rest (handle (fails now) b) next in
    ground (arith, tail, same, more)
