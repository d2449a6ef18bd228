-- ===== src/Limits/Caps.antt =====
-- What the caps of backend/internal/limits/limits.go and the handler of
-- backend/api/http/handlers/orders.go let through.
use pikship.Prelude.{
  ℕ, ◌≤◌, ◌<◌, String, ◌≡◌, refl, inl, inr, Bool, true, false, ◌||◌, some, List, [], ◌∷◌, arith,
  if◌then◌else◌, Option-cases,
}
use pikship.Prelude.Int.{ℤ, pos, ltb_ℤ, ◌==ℤ◌}
use pikship.Prelude.Table.{any}
use pikship.Prelude.Tx.{ok, err}
use pikship.Policy.Values.{Value, number, int64_type, as_int64}
use pikship.Policy.Keys.{orders_per_day_limit}
use pikship.Policy.Definitions.{
  Definition, define, definition_by_key, definitions, mid_market, enterprise,
}
use pikship.Policy.Rows
use pikship.Policy.Resolve.{State, Faults, no_faults, resolve}
use pikship.Policy.Engine.{new_engine}
use pikship.Policy.Effective.{effective, in_force}
use pikship.Policy.Runs.{Call, after_all, after_all-effective}
use pikship.Policy.Types.{bad_lock, bad_override, resolve-fits}
use pikship.Limits.Guard.{Db, limit_exceeded, count_since, limit_of, check_order_day, create_order}

abbrev pub day_limit : Definition
day_limit =
    define orders_per_day_limit int64_type (number (pos 200))
      ((mid_market, number (pos 2_000)) ∷ (enterprise, number (pos 0)) ∷ []) true true false

day_limit_known : definition_by_key orders_per_day_limit ≡ some day_limit
unfolding definition_by_key definitions
day_limit_known = refl

module _ (month_start day_start : ℕ → ℕ) where
  -- The answer of the guard, given what the engine resolves.
  pub checked :
      (faults : Faults) (now seller : ℕ) (db : Db) (s : State) (v : Value) (limit : ℤ)
      → (resolve faults now seller orders_per_day_limit s).0 ≡ ok v
      → as_int64 v ≡ some limit
      → (check_order_day month_start day_start false faults now seller db s).0 ≡ (
          if limit ==ℤ pos 0 || ltb_ℤ (pos (count_since seller (day_start now) db.orders)) limit
          then ok tt
          else err limit_exceeded)
  unfolding check_order_day limit_of
  checked faults now seller db s v limit h k = rw (h, k) (ground arith)

  -- In a process of the policy engine whose locks at the start and overrides now are of the
  -- declared type, CheckOrderDay, whose statements succeed, lets the seller through exactly when
  -- the cap that the tables say is 0 or above the number of orders since the start of the day, and
  -- answers with the exceeded limit otherwise.
  pub check_order_day-exact :
      (seller_text : ℕ → String) (start now seller : ℕ) (tables : pikship.Policy.Rows.Db)
      (cs : List Call) (db : Db)
      → any (bad_lock day_limit) tables.locks ≡ false
      → any
          (bad_override day_limit)
          (after_all seller_text cs (new_engine start tables)).db.overrides
        ≡ false
      → let s = after_all seller_text cs (new_engine start tables) in
        (limit : ℤ) × (as_int64 (effective (in_force start now tables.locks) s.db seller day_limit)
          ≡ some limit)
        × ((check_order_day month_start day_start false no_faults now seller db s).0 ≡ (
            if limit ==ℤ pos 0 || ltb_ℤ (pos (count_since seller (day_start now) db.orders)) limit
            then ok tt
            else err limit_exceeded))
  check_order_day-exact seller_text start now seller tables cs db good fine =
      let s = after_all seller_text cs (new_engine start tables) in
      let v = effective (in_force start now tables.locks) s.db seller day_limit in
      let (w, is, typed) =
        resolve-fits seller_text start now seller orders_per_day_limit day_limit tables cs
          day_limit_known good fine in
      let same : (resolve no_faults now seller orders_per_day_limit s).0 ≡ ok v =
        after_all-effective seller_text start now seller orders_per_day_limit day_limit tables cs
          day_limit_known in
      elim (Option-cases (as_int64 v)) [
        | inl none_such ↦ absurd (ground arith)
        | inr (limit, read) ↦ (limit, read, checked no_faults now seller db s v limit same read)
      ]

  -- Requests for orders on the day that begins at `start`, one after another, while the engine
  -- resolves the cap to `limit`.
  pub data Day (start seller limit : ℕ) : Db × State → Type 0 where
    opens :
        (db : Db) (s : State)
        → count_since seller start db.orders ≤ limit
        → Day start seller limit (db, s)
    requests :
        (created down : Bool) (faults : Faults) (now : ℕ) (db : Db) (s : State)
        → Day start seller limit (db, s)
        → day_start now ≡ start
        → (resolve faults now seller orders_per_day_limit s).0 ≡ ok (number (pos limit))
        → Day start seller limit
            (create_order month_start day_start created down faults now seller db s).1

  create_order-within :
      (created down : Bool) (faults : Faults) (now seller limit : ℕ) (db : Db) (s : State)
      → 0 < limit
      → (resolve faults now seller orders_per_day_limit s).0 ≡ ok (number (pos limit))
      → count_since seller (day_start now) db.orders ≤ limit
      → count_since seller
          (day_start now)
          (create_order month_start day_start created down faults now seller db s).1.0.orders
        ≤ limit
  unfolding create_order check_order_day limit_of
  create_order-within created down faults now seller limit db s positive h le = rw h (ground arith)

  -- Requests for orders of one seller on one day, one after another, with creations and statements
  -- that fail or not, never bring the orders of the day above a positive cap, while that is what
  -- the engine resolves and the day began within it.
  pub Day-within :
      (start seller limit : ℕ) (t : Db × State)
      → 0 < limit
      → Day start seller limit t
      → count_since seller start t.0.orders ≤ limit
  Day-within start seller limit _ positive (Day.opens db s le) = le
  Day-within start seller limit _ positive
        (Day.requests created down faults now db s before today h) =
      let le : count_since seller (day_start now) db.orders ≤ limit =
        rw today (Day-within start seller limit (db, s) positive before) in
      rw (← today) (create_order-within created down faults now seller limit db s positive h le)
