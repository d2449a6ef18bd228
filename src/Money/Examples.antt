-- ===== src/Money/Examples.antt =====
-- Amounts, the theorems applied to them, and what `MulInt` and `MulPercent` answer at the borders.
use pikship.Prelude.{◌≡◌, refl, true, some, arith}
use pikship.Prelude.Int.{ℤ, pos, negsuc, neg, ◌+ℤ◌, ◌-ℤ◌, ◌*ℤ◌}
use pikship.Prelude.Int64.{fits, wrap, max_int64}
use pikship.Money.{add, sub, mul_int, mul_percent, from_rupees_paise}
use pikship.Money.Exact.{add_exact, add-sub}

abbrev largest : ℤ
largest = pos max_int64

abbrev least : ℤ
least = negsuc max_int64

add_exact_example :
    (add largest (pos 1) ≡ (wrap (largest +ℤ pos 1), fits (largest +ℤ pos 1)))
    × (fits (largest +ℤ pos 1) ≡ true → add largest (pos 1) ≡ (largest +ℤ pos 1, true))
add_exact_example =
    add_exact largest (pos 1) (record { below = ground arith; above = ground arith })
      (record { below = ground arith; above = ground arith })

add-sub_example : sub (add (pos 500) (neg (pos 200))).0 (neg (pos 200)) ≡ (pos 500, true)
unfolding add sub wrap ◌+ℤ◌ neg
add-sub_example =
    add-sub (pos 500) (neg (pos 200)) (record { below = ground arith; above = ground arith })
      (record { below = ground arith; above = ground arith }) refl

fraction_test : from_rupees_paise (neg (pos 50)) (pos 25) ≡ some (neg (pos 5025))
unfolding from_rupees_paise ◌*ℤ◌ ◌-ℤ◌ neg wrap
fraction_test = refl

-- The negation of the least amount overflows, and is reported as fine.
mul_int_test : mul_int least (neg (pos 1)) ≡ (least, true)
unfolding mul_int ◌*ℤ◌ neg wrap
mul_int_test = refl

-- 0.02 % of an amount near the least, reported as fine: it overflows to 0.
mul_percent_test : mul_percent (neg largest) (pos 2) ≡ (pos 0, true)
unfolding mul_percent ◌*ℤ◌ neg wrap
mul_percent_test = refl
