-- ===== src/Carriers/Breaker.antt =====
-- backend/internal/carriers/breaker.go. Times are nanoseconds of the clock; the counters stay far
-- below the range of Go's int.
use pikship.Prelude.{ℕ, ◌+◌, ◌-◌, Bool, true, false, List, [], ◌∷◌, leb, ltb, if◌then◌else◌}

pub data BreakerState : Type 0 where
  closed tripped half_open : BreakerState

pub record Breaker : Type 0 where
  pub state : BreakerState
  pub failures : ℕ
  pub successes : ℕ
  pub in_flight : ℕ
  pub last_trip : ℕ
  pub threshold : ℕ
  pub reset_timeout : ℕ
  pub half_open_probe : ℕ

-- 5 failures, 30 seconds, 2 probes.
abbrev pub default_breaker : Breaker
default_breaker = record {
  state = closed;
  failures = 0;
  successes = 0;
  in_flight = 0;
  last_trip = 0;
  threshold = 5;
  reset_timeout = 30_000_000_000;
  half_open_probe = 2;
}

abbrev allow_in : BreakerState → ℕ → Breaker → Bool × Breaker
allow_in closed now b = (true, b)
allow_in tripped now b =
    if ltb (b.last_trip + b.reset_timeout) now
    then (true, record b { state = half_open; successes = 0; in_flight = 1 })
    else (false, b)
allow_in half_open now b =
    if leb b.half_open_probe b.in_flight
    then (false, b)
    else (true, record b { in_flight = b.in_flight + 1 })

unfoldable pub allow : ℕ → Breaker → Bool × Breaker
allow now b = allow_in b.state now b

-- `failures` is 0 already; the rest of `RecordSuccess` by the state.
abbrev success_in : BreakerState → Breaker → Breaker
success_in half_open b =
    let landed = record b { in_flight = b.in_flight - 1; successes = b.successes + 1 } in
    if leb b.half_open_probe (b.successes + 1)
    then record landed { state = closed; in_flight = 0 }
    else landed
success_in _ b = b

unfoldable pub record_success : Breaker → Breaker
record_success b = success_in b.state (record b { failures = 0 })

abbrev land : BreakerState → Breaker → Breaker
land half_open b = record b { in_flight = b.in_flight - 1 }
land _ b = b

abbrev trip : ℕ → Breaker → Breaker
trip now b =
    if leb b.threshold b.failures
    then record b { state = tripped; last_trip = now; in_flight = 0 }
    else b

unfoldable pub record_failure : ℕ → Breaker → Breaker
record_failure now b =
    let landed = land b.state b in trip now (record landed { failures = landed.failures + 1 })

-- What the carrier answers: success, an error of the class transient, or another error.
pub data Outcome : Type 0 where
  success transient other : Outcome

-- A guarded call: when it starts, when its answer is there, and the answer.
pub record Attempt : Type 0 where
  pub now : ℕ
  pub later : ℕ
  pub outcome : Outcome

pub data Answer : Type 0 where
  circuit_open : Answer
  answered : Outcome → Answer

abbrev note_outcome : Outcome → ℕ → Breaker → Breaker
note_outcome success later b = record_success b
note_outcome transient later b = record_failure later b
note_outcome other later b = b

-- `Book` and `Cancel` of breakerAdapter.
unfoldable pub guarded : Attempt → Breaker → Answer × Breaker
guarded a b =
    let (go, t) = allow a.now b in
    if go then (answered a.outcome, note_outcome a.outcome a.later t) else (circuit_open, t)

-- Calls one after the other.
abbrev pub attempts : List Attempt → Breaker → List Answer × Breaker
attempts [] b = ([], b)
attempts (a ∷ rest) b = let (x, t) = guarded a b in let (xs, u) = attempts rest t in (x ∷ xs, u)

-- What callers that overlap do to the breaker, in the order in which they take its lock.
pub data Event : Type 0 where
  asks : ℕ → Event
  succeeds : Event
  fails : ℕ → Event

unfoldable pub handle : Event → Breaker → Breaker
handle (asks now) b = (allow now b).1
handle succeeds b = record_success b
handle (fails now) b = record_failure now b

abbrev pub handle_all : List Event → Breaker → Breaker
handle_all [] b = b
handle_all (e ∷ es) b = handle_all es (handle e b)
