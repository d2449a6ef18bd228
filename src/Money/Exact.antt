-- ===== src/Money/Exact.antt =====
-- `Add`, `Sub` and `FromRupees` of backend/internal/core/money.go against the exact integers.
use pikship.Prelude.{
  ◌+◌, ◌≤◌, ◌<◌, ◌≡◌, refl, sym, ap, ◌∙◌, ◌⊎◌, inl, inr, true, false, not, ◌&&◌, ◌||◌, none, some,
  arith, if◌then◌else◌, Bool-cases,
}
use pikship.Prelude.Int.{
  ℤ, pos, negsuc, pos_part, neg_part, ◌+ℤ◌, ◌-ℤ◌, ◌*ℤ◌, neg, ltb_ℤ, +ℤ_parts, -ℤ_parts, eq_of_parts,
}
use pikship.Prelude.Int64.{IsInt64, fits, wrap, wrap_of_IsInt64, two_63, two_64, max_int64}
use pikship.Money.{add, sub, from_rupees}

-- An integer that is less than 2^64 away from 0 is kept, or moved by 2^64.
wrap_cases :
    (z : ℤ)
    → pos_part z < two_64
    → neg_part z ≤ two_64
    → ((fits z ≡ true) × (wrap z ≡ z))
      ⊎ ((fits z ≡ false)
          × (max_int64 < pos_part z)
          × (pos_part (wrap z) + two_64 ≡ neg_part (wrap z) + pos_part z))
      ⊎ ((fits z ≡ false)
          × (two_63 < neg_part z)
          × (neg_part (wrap z) + two_64 ≡ pos_part (wrap z) + neg_part z))
unfolding wrap
wrap_cases (pos n) h k = ground arith
wrap_cases (negsuc n) h k = ground arith

-- An integer has no positive and negative part at once.
one_part : (z : ℤ) → (pos_part z ≡ 0) ⊎ (neg_part z ≡ 0)
one_part (pos n) = inr refl
one_part (negsuc n) = inl refl

-- The test of `Add` on what is left of the sum z.
add_test :
    (p q z w : ℤ)
    → IsInt64 p
    → IsInt64 q
    → pos_part z + neg_part p + neg_part q ≡ neg_part z + pos_part p + pos_part q
    → ((fits z ≡ true) × (w ≡ z))
      ⊎ ((fits z ≡ false)
          × (max_int64 < pos_part z)
          × (pos_part w + two_64 ≡ neg_part w + pos_part z))
      ⊎ ((fits z ≡ false) × (two_63 < neg_part z) × (neg_part w + two_64 ≡ pos_part w + neg_part z))
    → not ((ltb_ℤ (pos 0) q && ltb_ℤ w p) || (ltb_ℤ q (pos 0) && ltb_ℤ p w)) ≡ fits z
add_test p q z w hp hq sum near = elim near [
  | inl (fit, e) ↦ rw (e, fit) (ground (arith, sum, one_part p, one_part q, one_part z))
  | inr far ↦ elim far [
    | inl (out, big, e) ↦
        rw out (ground (arith, sum, big, e, hp, hq, one_part p, one_part q, one_part z))
    | inr (out, small, e) ↦
        rw out (ground (arith, sum, small, e, hp, hq, one_part p, one_part q, one_part z))
  ]
]

-- The test of `Sub` on what is left of the difference z.
sub_test :
    (p q z w : ℤ)
    → IsInt64 p
    → IsInt64 q
    → pos_part z + neg_part p + pos_part q ≡ neg_part z + pos_part p + neg_part q
    → ((fits z ≡ true) × (w ≡ z))
      ⊎ ((fits z ≡ false)
          × (max_int64 < pos_part z)
          × (pos_part w + two_64 ≡ neg_part w + pos_part z))
      ⊎ ((fits z ≡ false) × (two_63 < neg_part z) × (neg_part w + two_64 ≡ pos_part w + neg_part z))
    → not ((ltb_ℤ (pos 0) q && ltb_ℤ p w) || (ltb_ℤ q (pos 0) && ltb_ℤ w p)) ≡ fits z
sub_test p q z w hp hq sum near = elim near [
  | inl (fit, e) ↦ rw (e, fit) (ground (arith, sum, one_part p, one_part q, one_part z))
  | inr far ↦ elim far [
    | inl (out, big, e) ↦
        rw out (ground (arith, sum, big, e, hp, hq, one_part p, one_part q, one_part z))
    | inr (out, small, e) ↦
        rw out (ground (arith, sum, small, e, hp, hq, one_part p, one_part q, one_part z))
  ]
]

near_sum :
    (p q : ℤ) → IsInt64 p → IsInt64 q → (pos_part (p +ℤ q) < two_64) × (neg_part (p +ℤ q) ≤ two_64)
near_sum p q hp hq = (
  ground (arith, hp, hq, +ℤ_parts p q, one_part (p +ℤ q)),
  ground (arith, hp, hq, +ℤ_parts p q, one_part (p +ℤ q)),
)

-- A difference can be 2^64 - 1, from the largest and the least int64.
near_diff :
    (p q : ℤ) → IsInt64 p → IsInt64 q → (pos_part (p -ℤ q) < two_64) × (neg_part (p -ℤ q) ≤ two_64)
near_diff p q hp hq = (
  ground (arith, hp, hq, -ℤ_parts p q, one_part (p -ℤ q)),
  ground (arith, hp, hq, -ℤ_parts p q, one_part (p -ℤ q)),
)

-- What `wrap` keeps of an integer that fits.
wrap-fits : (z : ℤ) → fits z ≡ true → wrap z ≡ z
wrap-fits z h = wrap_of_IsInt64 z (record { below = ground arith; above = ground arith })

-- For int64 amounts, Add reports true exactly when the sum is an int64, and then answers with
-- the exact sum; its value is the sum wrapped around in any case.
pub add_exact :
    (p q : ℤ)
    → IsInt64 p
    → IsInt64 q
    → (add p q ≡ (wrap (p +ℤ q), fits (p +ℤ q))) × (fits (p +ℤ q) ≡ true → add p q ≡ (p +ℤ q, true))
unfolding add
add_exact p q hp hq =
    let (a, b) = near_sum p q hp hq in
    let test =
      add_test p q (p +ℤ q) (wrap (p +ℤ q)) hp hq (+ℤ_parts p q) (wrap_cases (p +ℤ q) a b) in
    (rw test refl, λ h. rw (test, h, wrap-fits (p +ℤ q) h) refl)

-- For int64 amounts, Sub reports true exactly when the difference is an int64, and then answers
-- with the exact difference; its value is the difference wrapped around in any case.
pub sub_exact :
    (p q : ℤ)
    → IsInt64 p
    → IsInt64 q
    → (sub p q ≡ (wrap (p -ℤ q), fits (p -ℤ q))) × (fits (p -ℤ q) ≡ true → sub p q ≡ (p -ℤ q, true))
unfolding sub
sub_exact p q hp hq =
    let (a, b) = near_diff p q hp hq in
    let test =
      sub_test p q (p -ℤ q) (wrap (p -ℤ q)) hp hq (-ℤ_parts p q) (wrap_cases (p -ℤ q) a b) in
    (rw test refl, λ h. rw (test, h, wrap-fits (p -ℤ q) h) refl)

-- For int64 amounts, an Add that reports true is undone by Sub.
pub add-sub : (p q : ℤ) → IsInt64 p → IsInt64 q → (add p q).1 ≡ true → sub (add p q).0 q ≡ (p, true)
add-sub p q hp hq fine =
    let whole = add_exact p q hp hq in
    let room : fits (p +ℤ q) ≡ true = sym (ap (λ x. x.1) whole.0) ∙ fine in
    let sum : add p q ≡ (p +ℤ q, true) = whole.1 room in
    let back : (p +ℤ q) -ℤ q ≡ p =
      eq_of_parts ((p +ℤ q) -ℤ q) p (omega (arith, +ℤ_parts p q, -ℤ_parts (p +ℤ q) q)) in
    let range : IsInt64 (p +ℤ q) = record {
      below = ground (arith, room);
      above = ground (arith, room);
    } in
    let diff = sub_exact (p +ℤ q) q range hq in
    let kept : fits ((p +ℤ q) -ℤ q) ≡ true = rw back (ground (arith, hp)) in
    rw sum (diff.1 kept ∙ rw back refl)

-- FromRupees answers with the hundredfold of the rupees when that is an int64, and panics
-- otherwise.
pub from_rupees_exact :
    (r : ℤ) → from_rupees r ≡ (if fits (r *ℤ pos 100) then some (r *ℤ pos 100) else none)
unfolding from_rupees ◌*ℤ◌ neg
from_rupees_exact (pos n) = elim (Bool-cases (fits (pos n *ℤ pos 100))) [
  | inl fit ↦ rw (fit, wrap-fits (pos n *ℤ pos 100) fit) (ground arith)
  | inr out ↦ rw out (ground arith)
]
from_rupees_exact (negsuc n) = elim (Bool-cases (fits (negsuc n *ℤ pos 100))) [
  | inl fit ↦ rw (fit, wrap-fits (negsuc n *ℤ pos 100) fit) (ground arith)
  | inr out ↦ rw out (ground arith)
]
