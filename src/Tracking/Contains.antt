-- ===== src/Tracking/Contains.antt =====
-- The search of `contains` (backend/internal/tracking/tracking.go) finds what stands in the text.
use pikship.Prelude.{
  ℕ, ◌≡◌, refl, ap, ◌∙◌, inl, inr, true, List, [], ◌∷◌, ◌++◌, arith, ◌==◌, ==-self, ==→≡,
  Bool-cases,
}
use pikship.Tracking.Status.{begins_with, occurs}

-- The text is a beginning, the part looked for and a rest.
abbrev pub StandsIn : List ℕ → List ℕ → Type 0
StandsIn sub cs = (a b : List ℕ) × (cs ≡ a ++ (sub ++ b))

begins-found : (sub b : List ℕ) → begins_with sub (sub ++ b) ≡ true
begins-found [] b = refl
begins-found (s ∷ ss) b = rw (==-self s) (begins-found ss b)

begins-stands : (sub cs : List ℕ) → begins_with sub cs ≡ true → (b : List ℕ) × (cs ≡ sub ++ b)
begins-stands [] cs h = (cs, refl)
begins-stands (s ∷ ss) [] h = cc
begins-stands (s ∷ ss) (c ∷ cs) h = elim (Bool-cases (s == c)) [
  | inl same ↦
      let (b, e) = begins-stands ss cs (ground (arith, h, same)) in (b, rw (e, ==→≡ s c same) refl)
  | inr other ↦ absurd (ground (arith, h, other))
]

occurs_at : (sub cs : List ℕ) → begins_with sub cs ≡ true → occurs sub cs ≡ true
occurs_at sub [] h = h
occurs_at sub (c ∷ cs) h = rw h refl

occurs-found : (a sub b : List ℕ) → occurs sub (a ++ (sub ++ b)) ≡ true
occurs-found [] sub b = occurs_at sub (sub ++ b) (begins-found sub b)
occurs-found (x ∷ a) sub b = elim (Bool-cases (begins_with sub (x ∷ (a ++ (sub ++ b))))) [
  | inl here ↦ rw here refl
  | inr later ↦ rw later (occurs-found a sub b)
]

occurs-stands : (sub cs : List ℕ) → occurs sub cs ≡ true → StandsIn sub cs
occurs-stands sub [] h = let (b, e) = begins-stands sub [] h in ([], b, e)
occurs-stands sub (c ∷ cs) h = elim (Bool-cases (begins_with sub (c ∷ cs))) [
  | inl here ↦ let (b, e) = begins-stands sub (c ∷ cs) here in ([], b, e)
  | inr later ↦
      let (a, b, e) = occurs-stands sub cs (ground (arith, h, later)) in
      (c ∷ a, b, ap (λ t. c ∷ t) e)
]

-- The search finds a text in another exactly where the other is a beginning, the text and a
-- rest.
pub occurs_iff :
    (sub cs : List ℕ)
    → (occurs sub cs ≡ true → StandsIn sub cs) × (StandsIn sub cs → occurs sub cs ≡ true)
occurs_iff sub cs = (occurs-stands sub cs, λ (a, b, e). ap (occurs sub) e ∙ occurs-found a sub b)
