-- ===== src/Limits/Examples.antt =====
-- A seller with a cap of two orders a day; the theorems applied to it.
use pikship.Prelude.{
  ℕ, ◌≤◌, ◌||◌, String, ◌≡◌, refl, true, false, none, some, [], ◌∷◌, arith, if◌then◌else◌,
}
use pikship.Prelude.Int.{ℤ, pos, ltb_ℤ, ◌==ℤ◌}
use pikship.Prelude.Tx.{ok, err}
use pikship.Policy.Values.{number, as_int64}
use pikship.Policy.Keys.{orders_per_day_limit}
use pikship.Policy.Definitions.{definition_by_key, definitions, mid_market}
use pikship.Policy.Cache.{set_seller_override}
use pikship.Policy.Rows.{Source, get_seller_override}
use pikship.Policy.Rows
use pikship.Policy.Resolve.{State, no_faults, resolve}
use pikship.Policy.Engine.{new_engine}
use pikship.Policy.Effective.{effective, in_force}
use pikship.Policy.Runs.{after_all}
use pikship.Limits.Guard.{Db, limit_exceeded, count_since, check_order_day, create_order}
use pikship.Limits.Caps.{day_limit, check_order_day-exact, Day, Day-within}

abbrev seller_text : ℕ → String
seller_text n = "s"

-- Days of ten units of time.
abbrev day_of : ℕ → ℕ
day_of n = 0

abbrev tables : pikship.Policy.Rows.Db
tables = record {
  sellers = record { id = 7; seller_type = mid_market } ∷ [];
  overrides =
      record {
        seller_id = 7;
        key = orders_per_day_limit;
        value = number (pos 2);
        source = Source.ops;
        reason = "";
        set_by = none;
      }
      ∷ [];
  locks = [];
  notices = [];
  audited = [];
}

abbrev one_order : Db
one_order = record { orders = record { seller_id = 7; created_at = 1 } ∷ []; shipments = [] }

abbrev started : State
started = after_all seller_text [] (new_engine 0 tables)

check_order_day-exact_example :
    (limit : ℤ) × (as_int64 (effective (in_force 0 3 tables.locks) started.db 7 day_limit)
      ≡ some limit)
    × ((check_order_day day_of day_of false no_faults 3 7 one_order started).0 ≡ (
        if limit ==ℤ pos 0 || ltb_ℤ (pos (count_since 7 (day_of 3) one_order.orders)) limit
        then ok tt
        else err limit_exceeded))
unfolding after_all new_engine
check_order_day-exact_example =
    check_order_day-exact day_of day_of seller_text 0 3 7 tables [] one_order refl refl

at_cap :
    resolve no_faults 3 7 orders_per_day_limit (new_engine 0 tables)
    ≡ (ok (number (pos 2)), (resolve no_faults 3 7 orders_per_day_limit (new_engine 0 tables)).1)
unfolding resolve new_engine definition_by_key definitions get_seller_override set_seller_override
at_cap = refl

Day-within_example :
    count_since 7 0
      (create_order day_of day_of true false no_faults 3 7 one_order
        (new_engine 0 tables)).1.0.orders
    ≤ 2
unfolding resolve new_engine definition_by_key definitions get_seller_override set_seller_override
Day-within_example =
    Day-within day_of day_of 0 7 2
      (create_order day_of day_of true false no_faults 3 7 one_order (new_engine 0 tables)).1
      (omega arith)
      (Day.requests true false no_faults 3 one_order (new_engine 0 tables)
        (Day.opens one_order (new_engine 0 tables) (omega arith)) refl refl)
