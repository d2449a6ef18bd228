-- ===== src/Pricing/Weights.antt =====
-- The weights and the slabs of backend/internal/pricing/pricing.go against exact arithmetic.
use pikship.Prelude.{
  ℕ, ◌+◌, ◌-◌, ◌*◌, ◌/◌, ◌%◌, ◌≤◌, ◌<◌, ◌≡◌, refl, ap, ◌∙◌, ◌⊎◌, inl, inr, arith, ltb, Bool-cases,
}
use native.Mathlib.Nat.{div-add-mod, mod-lt, mul-add}
use pikship.Pricing.Engine.{volumetric_weight, extra_slabs}

truncated : (v : ℕ) → (v / 5_000_000 * 1000 * 5000 ≤ v) × (v < (v / 5_000_000 * 1000 + 1000) * 5000)
truncated v = (omega arith, omega arith)

-- The volumetric weight in grams is at most the volume in cubic millimetres divided by 5000, and
-- less than 1000 grams below it.
pub volumetric_under :
    (l w h : ℕ)
    → (volumetric_weight l w h * 5000 ≤ l * w * h)
      × (l * w * h < (volumetric_weight l w h + 1000) * 5000)
volumetric_under l w h = truncated (l * w * h)

-- For slabs of a positive size, the first slab and the extra slabs together hold the weight, and
-- where there are extra slabs one less would not hold it.
pub slabs_cover :
    (weight size : ℕ)
    → 0 < size
    → (weight ≤ size * (extra_slabs weight size + 1))
      × ((extra_slabs weight size ≡ 0) ⊎ (size * extra_slabs weight size < weight))
slabs_cover weight size positive =
    let e : ℕ = weight - size in
    let whole : size * (e / size) + e % size ≡ e = div-add-mod e size in
    let small : e % size < size = mod-lt e positive in
    let one : (n : ℕ) → size * (n + 1) ≡ size * n + size =
      λ n. mul-add size n 1 ∙ ap (λ k. size * n + k) (omega arith) in
    elim (Bool-cases (ltb 0 e)) [
      | inl more ↦ elim (Bool-cases (ltb 0 (e % size))) [
        | inl rest ↦
            rw (more, rest)
              (
                ground (arith, whole, small, one (e / size), one (e / size + 1), positive),
                inr (ground (arith, whole, rest, one (e / size), more)),
              )
        | inr exact ↦
            rw (more, exact)
              (
                ground (arith, whole, small, exact, one (e / size), positive),
                inr (ground (arith, whole, exact, more)),
              )
      ]
      | inr within ↦ rw within (ground (arith, within, one 0), inl refl)
    ]
