-- ===== src/Limits/Guard.antt =====
-- backend/internal/limits/limits.go: the guards on orders a day and shipments a month, with the
-- policy engine that they ask. `month_start` and `day_start` are the starts of the month and of the
-- day of a time.
use pikship.Prelude.{ℕ, String, Bool, ◌&&◌, List, ◌∷◌, Option, none, some, ◌==◌, leb, if◌then◌else◌}
use pikship.Prelude.Int.{ℤ, pos, leb_ℤ, ◌==ℤ◌}
use pikship.Prelude.Table.{count}
use pikship.Prelude.Tx.{Error, limit_reached, plain, database, Result, ok, err}
use pikship.Policy.Values.{Value, as_int64}
use pikship.Policy.Keys.{shipments_per_month_limit, orders_per_day_limit}
use pikship.Policy.Resolve.{State, Faults, resolve}

-- The columns of order_record and shipment that are counted.
pub record Created : Type 0 where
  pub seller_id : ℕ
  pub created_at : ℕ

pub record Db : Type 0 where
  pub orders : List Created
  pub shipments : List Created

-- ErrLimitExceeded, a sentinel of its own.
abbrev pub limit_exceeded : Error
limit_exceeded = limit_reached

abbrev pub since : ℕ → ℕ → Created → Bool
since seller start r = r.seller_id == seller && leb start r.created_at

abbrev pub count_since : ℕ → ℕ → List Created → ℕ
count_since seller start rows = count (since seller start) rows

abbrev pub to_int64 : Option ℤ → Result ℤ
to_int64 none = err plain
to_int64 (some n) = ok n

abbrev pub limit_value : Result Value → Result ℤ
limit_value (err e) = err e
limit_value (ok v) = to_int64 (as_int64 v)

-- `shipmentLimit` and `orderLimit`.
unfoldable pub limit_of : String → Faults → ℕ → ℕ → State → Result ℤ × State
limit_of key faults now seller s =
    (limit_value (resolve faults now seller key s).0, (resolve faults now seller key s).1)

abbrev pub counted : Bool → ℕ → Result ℕ
counted down n = if down then err database else ok n

abbrev pub check_count : ℤ → Result ℕ → Result (Unit {0})
check_count limit (err e) = err e
check_count limit (ok n) = if leb_ℤ limit (pos n) then err limit_exceeded else ok tt

-- A limit of 0 is no limit, and nothing is counted then.
abbrev pub check_limit : Result ℤ → Result ℕ → Result (Unit {0})
check_limit (err e) n = err e
check_limit (ok limit) n = if limit ==ℤ pos 0 then ok tt else check_count limit n

abbrev pub guard :
    String → Bool → Faults → ℕ → ℕ → ℕ → List Created → State → Result (Unit {0}) × State
guard key down faults now seller start rows s = (
  check_limit (limit_of key faults now seller s).0 (counted down (count_since seller start rows)),
  (limit_of key faults now seller s).1,
)

pub record Usage : Type 0 where
  pub shipments_this_month : ℕ
  pub shipment_month_limit : ℤ
  pub orders_today : ℕ
  pub order_day_limit : ℤ

module _ (month_start day_start : ℕ → ℕ) where
  -- `down` says that the count fails.
  unfoldable pub check_shipment_month :
      Bool → Faults → ℕ → ℕ → Db → State → Result (Unit {0}) × State
  check_shipment_month down faults now seller db s =
      guard shipments_per_month_limit down faults now seller (month_start now) db.shipments s

  unfoldable pub check_order_day : Bool → Faults → ℕ → ℕ → Db → State → Result (Unit {0}) × State
  check_order_day down faults now seller db s =
      guard orders_per_day_limit down faults now seller (day_start now) db.orders s

  abbrev pub usage_of : Result ℤ → Result ℤ → Result ℕ → Result ℕ → Result Usage
  usage_of (err e) _ _ _ = err e
  usage_of (ok a) (err e) _ _ = err e
  usage_of (ok a) (ok b) (err e) _ = err e
  usage_of (ok a) (ok b) (ok m) (err e) = err e
  usage_of (ok a) (ok b) (ok m) (ok n) = ok (record {
    shipments_this_month = m;
    shipment_month_limit = a;
    orders_today = n;
    order_day_limit = b;
  })

  -- What the engine keeps of the two questions.
  abbrev pub usage_state : Result ℤ → State → State → State
  usage_state (err e) s t = s
  usage_state (ok _) s t = t

  -- `Usage`.
  unfoldable pub usage : Bool → Faults → ℕ → ℕ → Db → State → Result Usage × State
  usage down faults now seller db s =
      let first = limit_of shipments_per_month_limit faults now seller s in
      let second = limit_of orders_per_day_limit faults now seller first.1 in
      (
        usage_of first.0 second.0 (counted down (count_since seller (month_start now) db.shipments))
            (counted down (count_since seller (day_start now) db.orders)),
        usage_state first.0 first.1 second.1,
      )

  abbrev pub create_checked :
      Bool → ℕ → ℕ → Db → Result (Unit {0}) × State → Result (Unit {0}) × (Db × State)
  create_checked created now seller db (err e, s) = (err e, (db, s))
  create_checked created now seller db (ok _, s) =
      if created
      then (
        ok tt,
        (record db { orders = record { seller_id = seller; created_at = now } ∷ db.orders }, s),
      )
      else (err plain, (db, s))

  -- `CreateOrderHandler`; `created` says whether `Create` succeeds.
  unfoldable pub create_order :
      Bool → Bool → Faults → ℕ → ℕ → Db → State → Result (Unit {0}) × (Db × State)
  create_order created down faults now seller db s =
      create_checked created now seller db (check_order_day down faults now seller db s)
