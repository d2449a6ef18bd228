-- ===== src/Orders/Final.antt =====
-- What calls of the order service cannot do: leave a final state, book an order that is not
-- allocating, or pay one twice.
use pikship.Prelude.{
  ℕ, ◌≡◌, refl, ◌∙◌, inl, inr, String, true, false, some, arith, ◌==◌, if◌then◌else◌, Bool-cases,
}
use pikship.Prelude.Table.{
  select, update, select-update, map_some, apply_if, select-holds, any-select,
}
use pikship.Prelude.Tx.{invalid_argument, ok, err}
use pikship.Orders.State.{OrderState, ready, allocating, state_eq, can_transition}
use pikship.Orders.Rows.{Order, Db, BookedRef, MarkPaidRef}
use pikship.Orders.Repo.{
  is_order, new_order, transition_state, set_state, insert_state_event, book_order_row,
}
use pikship.Orders.Service.{mark_booked, mark_paid, lock_order, pay, transition_under}
use pikship.Orders.Moves.{KeepsKeys, changed, Moves}
use pikship.Orders.Calls.{after-Moves}
use pikship.Orders.History.{is_order-keys, is_final, final_stuck, keys_of, Reach, here, next}

-- The order is there and in the state.
abbrev pub IsAt : ℕ → ℕ → OrderState → Db → Type 0
IsAt seller id st db =
    (o : Order) × (select (is_order seller id) db.orders ≡ some o) × (o.state ≡ st)

changed-IsAt :
    (seller id s i : ℕ) (f : Order → Order) (st : OrderState) (db : Db)
    → KeepsKeys f
    → ((x : Order)
        → select (is_order s i) db.orders ≡ some x
        → is_order seller id x ≡ true
        → (f x).state ≡ st)
    → IsAt s i st db
    → IsAt s i st (changed seller id f db)
changed-IsAt seller id s i f st db keeps state (o, there, at) =
    let e : select (is_order s i) (changed seller id f db).orders
        ≡ map_some (apply_if (is_order seller id) f) (select (is_order s i) db.orders) =
      select-update (is_order seller id) (is_order s i) f (is_order-keys s i f keeps) db.orders in
    (
      apply_if (is_order seller id) f o,
      e ∙ rw there refl,
      elim (Bool-cases (is_order seller id o)) [
        | inl hit ↦ rw hit (state o there hit)
        | inr miss ↦ rw miss at
      ],
    )

Moves-final :
    {db t : Db}
    → Moves db t
    → (s i : ℕ) (st : OrderState) → is_final st ≡ true
    → IsAt s i st db
    → IsAt s i st t
Moves-final Moves.same s i st final at = at
Moves-final {db = db} (Moves.moved seller id o f to reason found allowed keeps state) s i st final
      at =
    changed-IsAt seller id s i f st db keeps
      (λ x there hit.
        let k : (x.id ≡ i) × (x.seller_id ≡ s) = keys_of s i x db.orders there in
        let same : x ≡ o = ground (arith, found, there, hit, k) in
        let (y, there_y, at_y) = at in
        let yx : y ≡ x = ground (arith, there, there_y) in
        absurd (ground (arith, allowed, final_stuck st to final, same, yx, at_y)))
      at
Moves-final {db = db} (Moves.touched seller id f keeps state) s i st final (o, there, at) =
    changed-IsAt seller id s i f st db keeps
      (λ x found hit. state x ∙ ground (arith, found, there, at)) (o, there, at)
Moves-final {db = db} (Moves.created fresh now req unused) s i st final (o, there, at) =
    let k : (o.id ≡ i) × (o.seller_id ≡ s) = keys_of s i o db.orders there in
    let other : (o.id == fresh) ≡ false =
      any-select (λ (x : Order). x.id == fresh) (is_order s i) o db.orders unused.no_order there in
    let miss : is_order s i (new_order fresh now req) ≡ false = ground (arith, other, k) in
    (o, rw miss there, at)

-- Whatever calls follow, each creation with an unused id, an order that is closed or cancelled
-- stays in that state.
pub Reach-final :
    {s t : Db}
    → Reach s t
    → (seller id : ℕ) (st : OrderState) → is_final st ≡ true
    → IsAt seller id st s
    → IsAt seller id st t
Reach-final here seller id st final at = at
Reach-final (next {t = u} call r fresh) seller id st final at =
    Moves-final (after-Moves call u fresh) seller id st final (Reach-final r seller id st final at)

-- Under a seller's scope, MarkBooked of an order that is found succeeds when the order is
-- allocating, and fails with an invalid argument in every other state, ready included.
pub booked_only_allocating :
    (now seller id : ℕ) (ref : BookedRef) (o : Order) (db : Db)
    → (seller == 0) ≡ false
    → select (is_order seller id) db.orders ≡ some o
    → (mark_booked now seller id ref db).0
      ≡ (if state_eq o.state allocating then ok tt else err invalid_argument)
unfolding mark_booked lock_order transition_state set_state insert_state_event book_order_row
    can_transition
booked_only_allocating now seller id ref o db scoped found = ground arith

-- A MarkPaid of an order that succeeded can be repeated at any time and with any reference: the
-- second call succeeds and changes nothing.
pub paid_twice :
    (now later seller id : ℕ) (ref again : MarkPaidRef) (o : Order) (db : Db)
    → select (is_order seller id) db.orders ≡ some o
    → (mark_paid now seller id ref db).0 ≡ ok tt
    → mark_paid later seller id again (mark_paid now seller id ref db).1
      ≡ (ok tt, (mark_paid now seller id ref db).1)
unfolding mark_paid lock_order
paid_twice now later seller id ref again o db found done =
    let e : select (is_order seller id) (update (is_order seller id) (pay now ref) db.orders)
        ≡ map_some (apply_if (is_order seller id) (pay now ref))
            (select (is_order seller id) db.orders) =
      select-update (is_order seller id) (is_order seller id) (pay now ref) (λ x. refl) db.orders in
    ground (arith, select-holds (is_order seller id) o db.orders found, e)

-- A transition of an order that is in another state.
pub transition_refused :
    (now seller id : ℕ) (from to : OrderState) (reason : String) (o : Order) (db : Db)
    → (seller == 0) ≡ false
    → select (is_order seller id) db.orders ≡ some o
    → state_eq o.state from ≡ false
    → transition_under now seller id from to reason db ≡ (err invalid_argument, db)
unfolding transition_under lock_order
transition_refused now seller id from to reason o db scoped found other = ground arith

pub booked_refused :
    (now seller id : ℕ) (ref : BookedRef) (o : Order) (db : Db)
    → (seller == 0) ≡ false
    → select (is_order seller id) db.orders ≡ some o
    → state_eq o.state ready ≡ false
    → state_eq o.state allocating ≡ false
    → mark_booked now seller id ref db ≡ (err invalid_argument, db)
unfolding mark_booked lock_order
booked_refused now seller id ref o db scoped found a b = ground arith
