-- ===== src/Outbox/Delivery.antt =====
-- Which events of the outbox (backend/internal/outbox/forwarder.go) reach the queue of jobs.
use pikship.Prelude.{
  ℕ, zero, suc, ◌+◌, ◌-◌, ◌*◌, ◌≤◌, ◌≡◌, refl, sym, ap, ◌∙◌, inl, inr, Bool, true, false, ◌&&◌,
  ◌||◌, List, [], ◌∷◌, arith, ◌==◌, Bool-cases,
}
use native.Mathlib.Nat.{add-mul}
use pikship.Prelude.Table.{any, count, any-append}
use pikship.Outbox.Forwarder.{Event, State, is_pending, claim, ids_of, hand_over, forward, has_id}

-- A pending event with this id.
abbrev pub awaits : ℕ → Event → Bool
awaits id e = has_id id e && is_pending e

abbrev pub is_job : ℕ → ℕ → Bool
is_job id j = j == id

pub ids-any : (id : ℕ) (es : List Event) → any (is_job id) (ids_of es) ≡ any (has_id id) es
ids-any id [] = refl
ids-any id (e ∷ es) = ground (arith, ids-any id es)

-- A claim takes as many pending events as it can.
claim-pending :
    (n now : ℕ) (es : List Event) → count is_pending (claim n now es).1 ≡ count is_pending es - n
unfolding claim
claim-pending zero now es = omega arith
claim-pending (suc n) now [] = omega arith
claim-pending (suc n) now (e ∷ es) = elim (Bool-cases (is_pending e)) [
  | inl hit ↦ rw hit (ground (arith, claim-pending n now es))
  | inr miss ↦ rw miss (ground (arith, claim-pending (suc n) now es))
]

-- What waited is claimed or still waits.
claim-awaits :
    (n now id : ℕ) (es : List Event)
    → any (awaits id) es ≡ true
    → (any (has_id id) (claim n now es).0 || any (awaits id) (claim n now es).1) ≡ true
unfolding claim
claim-awaits zero now id es h = ground arith
claim-awaits (suc n) now id [] h = cc
claim-awaits (suc n) now id (e ∷ es) h = elim (Bool-cases (is_pending e)) [
  | inl hit ↦ rw hit (ground (arith, claim-awaits n now id es))
  | inr miss ↦ rw miss (ground (arith, claim-awaits (suc n) now id es))
]

claim-none : (n now : ℕ) (es : List Event) → (claim n now es).0 ≡ [] → (claim n now es).1 ≡ es
unfolding claim
claim-none zero now es h = refl
claim-none (suc n) now [] h = refl
claim-none (suc n) now (e ∷ es) h = elim (Bool-cases (is_pending e)) [
  | inl hit ↦ absurd (ground arith)
  | inr miss ↦ rw miss (ap (λ xs. e ∷ xs) (claim-none (suc n) now es (ground arith)))
]

-- What a forward whose statements succeed does.
handed :
    (id : ℕ) (c : List Event × List Event) (s : State)
    → (c.0 ≡ [] → c.1 ≡ s.events)
    → ((hand_over false c s).1.events ≡ c.1)
      × (any (is_job id) (hand_over false c s).1.jobs
          ≡ (any (is_job id) s.jobs || any (has_id id) c.0))
handed id ([], marked) s same = (sym (same refl), ground arith)
handed id (e ∷ es, marked) s same = (
  refl,
  any-append (is_job id) s.jobs (ids_of (e ∷ es))
      ∙ ap (λ b. any (is_job id) s.jobs || b) (ids-any id (e ∷ es)),
)

forward-handed :
    (batch now id : ℕ) (s : State)
    → let t = (forward batch false false now s).1 in
      (t.events ≡ (claim batch now s.events).1)
      × (any (is_job id) t.jobs
          ≡ (any (is_job id) s.jobs || any (has_id id) (claim batch now s.events).0))
unfolding forward
forward-handed batch now id s =
    handed id (claim batch now s.events) s (claim-none batch now s.events)

-- The state after polls at these times, none of which fails.
unfoldable pub polls : ℕ → List ℕ → State → State
polls batch [] s = s
polls batch (now ∷ times) s = polls batch times (forward batch false false now s).1

abbrev pub number : {A : Type 0} → List A → ℕ
number [] = 0
number (x ∷ xs) = 1 + number xs

less_twice : (a b m : ℕ) → a - b - m * b ≡ a - (1 + m) * b
less_twice a b m = let e = add-mul 1 m b in omega arith

polls-pending :
    (batch : ℕ) (times : List ℕ) (s : State)
    → count is_pending (polls batch times s).events
      ≡ count is_pending s.events - number times * batch
unfolding polls
polls-pending batch [] s = omega arith
polls-pending batch (now ∷ times) s =
    let t = (forward batch false false now s).1 in
    let step : count is_pending t.events ≡ count is_pending s.events - batch =
      ap (count is_pending) (forward-handed batch now 0 s).0 ∙ claim-pending batch now s.events in
    polls-pending batch times t
    ∙ (rw step (less_twice (count is_pending s.events) batch (number times)))

polls-arrive :
    (batch id : ℕ) (times : List ℕ) (s : State)
    → (any (awaits id) s.events || any (is_job id) s.jobs) ≡ true
    → (any (awaits id) (polls batch times s).events || any (is_job id) (polls batch times s).jobs)
      ≡ true
unfolding polls
polls-arrive batch id [] s h = h
polls-arrive batch id (now ∷ times) s h =
    let t = (forward batch false false now s).1 in
    let (events, jobs) = forward-handed batch now id s in
    polls-arrive batch id times t
      (rw (events, jobs) (ground (arith, claim-awaits batch now id s.events)))

none_waits : (id : ℕ) (es : List Event) → count is_pending es ≡ 0 → any (awaits id) es ≡ false
none_waits id [] h = refl
none_waits id (e ∷ es) h = ground (arith, none_waits id es)

-- Where no statement fails, as many polls as batches cover the pending events leave none
-- pending, and each event that was pending has a job.
pub polls-deliver :
    (batch id : ℕ) (times : List ℕ) (s : State)
    → count is_pending s.events ≤ number times * batch
    → any (awaits id) s.events ≡ true
    → (count is_pending (polls batch times s).events ≡ 0)
      × (any (is_job id) (polls batch times s).jobs ≡ true)
polls-deliver batch id times s enough waits =
    let t = polls batch times s in
    let empty : count is_pending t.events ≡ 0 = polls-pending batch times s ∙ omega arith in
    let arrived = polls-arrive batch id times s (ground arith) in
    let gone = none_waits id t.events empty in (empty, ground arith)
