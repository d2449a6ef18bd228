-- ===== src/Money.antt =====
-- backend/internal/core/money.go: amounts of paise as int64, with what Go's arithmetic makes of an
-- overflow. A panic is `none`.
pub mod Exact
mod Examples
use pikship.Prelude.{
  ℕ, ◌+◌, ◌*◌, ◌/◌, ◌%◌, ◌≡◌, refl, Bool, true, false, not, ◌&&◌, ◌||◌, Option, none, some, ◌==◌,
  leb, ltb, if◌then◌else◌,
}
use pikship.Prelude.Int.{ℤ, pos, negsuc, neg, ◌+ℤ◌, ◌-ℤ◌, ◌*ℤ◌, ltb_ℤ, leb_ℤ, ◌==ℤ◌}
use pikship.Prelude.Int64.{wrap}

-- Go's division and remainder, truncated toward zero; the divisor is not 0.
abbrev pub quot : ℤ → ℤ → ℤ
quot (pos a) (pos b) = pos (a / b)
quot (pos a) (negsuc b) = neg (pos (a / (b + 1)))
quot (negsuc a) (pos b) = neg (pos ((a + 1) / b))
quot (negsuc a) (negsuc b) = pos ((a + 1) / (b + 1))

abbrev pub rem : ℤ → ℕ → ℤ
rem (pos a) b = pos (a % b)
rem (negsuc a) b = neg (pos ((a + 1) % b))

-- math.MaxInt64 / 100 and -(math.MinInt64 / 100).
abbrev pub max_rupees : ℕ
max_rupees = 92_233_720_368_547_758

unfoldable pub from_rupees : ℤ → Option ℤ
from_rupees r =
    if ltb_ℤ (pos max_rupees) r || ltb_ℤ r (neg (pos max_rupees))
    then none
    else some (wrap (r *ℤ pos 100))

abbrev pub paise_of : ℤ → ℤ → ℤ
paise_of r x =
    if ltb_ℤ (pos 0) r
    then wrap (wrap (r *ℤ pos 100) +ℤ x)
    else (if ltb_ℤ r (pos 0) then wrap (wrap (r *ℤ pos 100) -ℤ x) else x)

unfoldable pub from_rupees_paise : ℤ → ℤ → Option ℤ
from_rupees_paise r x = if ltb_ℤ x (pos 0) || ltb_ℤ (pos 99) x then none else some (paise_of r x)

pub rupees : ℤ → ℤ
rupees p = quot p (pos 100)

pub paise_component : ℤ → ℤ
paise_component p = rem p 100

unfoldable pub add : ℤ → ℤ → ℤ × Bool
add p q =
    let sum = wrap (p +ℤ q) in
    (sum, not ((ltb_ℤ (pos 0) q && ltb_ℤ sum p) || (ltb_ℤ q (pos 0) && ltb_ℤ p sum)))

abbrev checked : ℤ × Bool → Option ℤ
checked (x, true) = some x
checked (x, false) = none

unfoldable pub add_or_panic : ℤ → ℤ → Option ℤ
add_or_panic p q = checked (add p q)

unfoldable pub sub : ℤ → ℤ → ℤ × Bool
sub p q =
    let diff = wrap (p -ℤ q) in
    (diff, not ((ltb_ℤ (pos 0) q && ltb_ℤ p diff) || (ltb_ℤ q (pos 0) && ltb_ℤ diff p)))

unfoldable pub sub_or_panic : ℤ → ℤ → Option ℤ
sub_or_panic p q = checked (sub p q)

unfoldable pub mul_int : ℤ → ℤ → ℤ × Bool
mul_int p factor =
    if factor ==ℤ pos 0 || p ==ℤ pos 0
    then (pos 0, true)
    else let result = wrap (p *ℤ factor) in (result, wrap (quot result factor) ==ℤ p)

unfoldable pub mul_percent : ℤ → ℤ → ℤ × Bool
mul_percent p bp =
    if ltb_ℤ bp (pos 0)
    then (pos 0, false)
    else (if not (bp ==ℤ pos 0) && ltb_ℤ (quot (pos 9_223_372_036_854_775_807) bp) p
        then (pos 0, false)
        else (quot (wrap (p *ℤ bp)) (pos 10000), true))
