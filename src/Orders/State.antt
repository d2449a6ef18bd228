-- ===== src/Orders/State.antt =====
-- The order's states and the transitions that backend/internal/orders/service.go allows.
use pikship.Prelude.{ℕ, Bool, true, false, ◌≡◌, List, [], ◌∷◌, arith, ◌==◌, if◌then◌else◌}

pub data OrderState : Type 0 where
  draft ready allocating booked in_transit delivered closed cancelled rto : OrderState

-- States are compared as the texts that the source stores; here by their places.
abbrev place : OrderState → ℕ
place draft = 0
place ready = 1
place allocating = 2
place booked = 3
place in_transit = 4
place delivered = 5
place closed = 6
place cancelled = 7
place rto = 8

abbrev pub state_eq : OrderState → OrderState → Bool
state_eq a b = place a == place b

abbrev pub allowed_transitions : OrderState → List OrderState
allowed_transitions draft = ready ∷ cancelled ∷ []
allowed_transitions ready = allocating ∷ cancelled ∷ draft ∷ []
allowed_transitions allocating = booked ∷ ready ∷ cancelled ∷ []
allowed_transitions booked = in_transit ∷ cancelled ∷ rto ∷ []
allowed_transitions in_transit = delivered ∷ rto ∷ []
allowed_transitions delivered = closed ∷ rto ∷ []
allowed_transitions closed = []
allowed_transitions cancelled = []
allowed_transitions rto = closed ∷ []

abbrev has_target : OrderState → List OrderState → Bool
has_target to [] = false
has_target to (s ∷ ss) = if state_eq s to then true else has_target to ss

unfoldable pub can_transition : OrderState → OrderState → Bool
can_transition from to = has_target to (allowed_transitions from)

pub state_eq→≡ : (a b : OrderState) → state_eq a b ≡ true → a ≡ b
state_eq→≡ a b h = ground arith
