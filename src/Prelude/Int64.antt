-- ===== src/Prelude/Int64.antt =====
-- Go's `int64`: the integers from -2^63 to 2^63 - 1, with the wrap-around of its arithmetic.
use Prim.Native.Nat.{ℕ, ◌-◌, ◌%◌, ◌≤◌}
use mathlib.Core.Path.{◌≡◌}
use mathlib.Core.Bool.{Bool, ◌&&◌}
use native.Mathlib.Omega.{arith}
use pikship.Prelude.Tests.{ltb, leb, if◌then◌else◌}
use pikship.Prelude.Int.{◌≤ℤ◌, neg, ℤ, pos, negsuc, pos_part, neg_part}

abbrev pub max_int64 : ℕ
max_int64 = 9_223_372_036_854_775_807

abbrev pub two_63 : ℕ
two_63 = 9_223_372_036_854_775_808

abbrev pub two_64 : ℕ
two_64 = 18_446_744_073_709_551_616

-- The value of a 64-bit pattern in two's complement.
abbrev pub of_bits : ℕ → ℤ
of_bits n = if ltb n two_63 then pos n else negsuc (two_64 - 1 - n)

-- What an `int64` keeps of an integer.
unfoldable pub wrap : ℤ → ℤ
wrap (pos n) = of_bits (n % two_64)
wrap (negsuc n) = of_bits (two_64 - 1 - n % two_64)

pub record IsInt64 (z : ℤ) : Type 0 where
  pub below : pos_part z ≤ max_int64
  pub above : neg_part z ≤ two_63

abbrev pub fits : ℤ → Bool
fits z = leb (pos_part z) max_int64 && leb (neg_part z) two_63

pub wrap_IsInt64 : (z : ℤ) → IsInt64 (wrap z)
unfolding wrap
wrap_IsInt64 (pos n) = ground arith
wrap_IsInt64 (negsuc n) = ground arith

pub wrap_of_IsInt64 : (z : ℤ) → IsInt64 z → wrap z ≡ z
unfolding wrap
wrap_of_IsInt64 (pos n) h = ground arith
wrap_of_IsInt64 (negsuc n) h = ground arith

pub wrap-neg_nonneg : (z : ℤ) → pos 0 ≤ℤ z → IsInt64 z → wrap (neg z) ≡ neg z
unfolding neg
wrap-neg_nonneg (pos n) h r = wrap_of_IsInt64 (neg (pos n)) (ground (arith, r))
wrap-neg_nonneg (negsuc n) h r = absurd (omega arith)

pub wrap-neg : (z : ℤ) → pos 1 ≤ℤ z → IsInt64 z → wrap (neg z) ≡ neg z
wrap-neg z h r = wrap-neg_nonneg z (omega arith) r
