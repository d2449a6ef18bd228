-- ===== src/Orders/Service.antt =====
-- backend/internal/orders/service_impl.go. `now` is the time of the transaction.
use pikship.Prelude.{ℕ, String, Bool, true, false, not, ◌&&◌, some, List, [], ◌∷◌, if◌then◌else◌}
use pikship.Prelude.Table.{select, update}
use pikship.Prelude.Tx.{
  not_found, invalid_argument, Result, err, Tx, ◌>>=◌, ◌>>◌, pure, fail, fail_if, or_fail, modify,
  with_seller_tx,
}
use pikship.Orders.State.{
  OrderState, draft, ready, allocating, booked, in_transit, delivered, closed, cancelled, rto,
  state_eq, can_transition,
}
use pikship.Orders.Rows.{
  PaymentMode, PaymentStatus, OrderLine, CreateRequest, Order, Db, BookedRef, MarkPaidRef,
}
use pikship.Orders.Repo.{
  is_order, get_order, get_order_by_channel, insert_order, coalesce, transition_state,
  insert_state_event, book_order_row, cancel_order_row,
}

abbrev pub no_lines : List OrderLine → Bool
no_lines [] = true
no_lines (_ ∷ _) = false

unfoldable pub create : ℕ → ℕ → CreateRequest → Db → Result Order × Db
create fresh now req db =
    if no_lines req.lines
    then (err invalid_argument, db)
    else with_seller_tx req.seller_id (insert_order fresh now req) db

unfoldable pub get : ℕ → ℕ → Db → Result Order × Db
get seller id = with_seller_tx seller (get_order seller id)

unfoldable pub get_by_channel_ref : ℕ → String → String → Db → Result Order × Db
get_by_channel_ref seller channel ref =
    with_seller_tx seller (get_order_by_channel seller channel ref)

-- SELECT state … FOR UPDATE.
unfoldable pub lock_order : ℕ → ℕ → Tx Db Order
lock_order seller id db = or_fail (select (is_order seller id) db.orders) not_found db

abbrev transition_body : ℕ → ℕ → ℕ → OrderState → OrderState → String → Tx Db (Unit {0})
transition_body now seller id from to reason = do
  o ← lock_order seller id
  fail_if (not (state_eq o.state from)) invalid_argument
  transition_state now seller id from to reason

unfoldable pub transition_under :
    ℕ → ℕ → ℕ → OrderState → OrderState → String → Db → Result (Unit {0}) × Db
transition_under now seller id from to reason =
    with_seller_tx seller (transition_body now seller id from to reason)

unfoldable pub mark_ready : ℕ → ℕ → ℕ → Db → Result (Unit {0}) × Db
mark_ready now seller id = transition_under now seller id draft ready "marked_ready"

unfoldable pub mark_allocating : ℕ → ℕ → ℕ → Db → Result (Unit {0}) × Db
mark_allocating now seller id = transition_under now seller id ready allocating "allocation_started"

unfoldable pub mark_in_transit : ℕ → ℕ → ℕ → Db → Result (Unit {0}) × Db
mark_in_transit now seller id = transition_under now seller id booked in_transit "in_transit"

unfoldable pub mark_delivered : ℕ → ℕ → ℕ → Db → Result (Unit {0}) × Db
mark_delivered now seller id = transition_under now seller id in_transit delivered "delivered"

abbrev cancel_body : ℕ → ℕ → ℕ → String → Tx Db (Unit {0})
cancel_body now seller id reason = do
  o ← lock_order seller id
  fail_if (not (can_transition o.state cancelled)) invalid_argument
  cancel_order_row now seller id reason
  insert_state_event seller id o.state cancelled reason

-- `Cancel`.
unfoldable pub cancel_order : ℕ → ℕ → ℕ → String → Db → Result (Unit {0}) × Db
cancel_order now seller id reason = with_seller_tx seller (cancel_body now seller id reason)

abbrev booked_body : ℕ → ℕ → ℕ → BookedRef → Tx Db (Unit {0})
booked_body now seller id ref = do
  o ← lock_order seller id
  fail_if (not (state_eq o.state allocating) && not (state_eq o.state ready)) invalid_argument
  transition_state now seller id o.state booked "booked"
  book_order_row now seller id ref

unfoldable pub mark_booked : ℕ → ℕ → ℕ → BookedRef → Db → Result (Unit {0}) × Db
mark_booked now seller id ref = with_seller_tx seller (booked_body now seller id ref)

-- `MarkRTO` and `Close`: from any state that allows `to`.
abbrev pub to_body : ℕ → ℕ → ℕ → OrderState → String → Tx Db (Unit {0})
to_body now seller id to reason = do
  o ← lock_order seller id
  fail_if (not (can_transition o.state to)) invalid_argument
  transition_state now seller id o.state to reason

unfoldable pub mark_rto : ℕ → ℕ → ℕ → String → Db → Result (Unit {0}) × Db
mark_rto now seller id reason = with_seller_tx seller (to_body now seller id rto reason)

-- `Close`.
unfoldable pub close_order : ℕ → ℕ → ℕ → Db → Result (Unit {0}) × Db
close_order now seller id = with_seller_tx seller (to_body now seller id closed "closed")

abbrev pub pay : ℕ → MarkPaidRef → Order → Order
pay now ref o = record o {
  payment_status = PaymentStatus.paid;
  paid_at = coalesce o.paid_at now;
  paid_reference = some ref.reference;
  paid_by = ref.paid_by;
  updated_at = now;
}

-- The tests of `MarkPaid` on the order's payment method and status.
abbrev pay_if : ℕ → ℕ → ℕ → MarkPaidRef → PaymentMode → PaymentStatus → Tx Db (Unit {0})
pay_if now seller id ref PaymentMode.cod status = fail invalid_argument
pay_if now seller id ref PaymentMode.prepaid PaymentStatus.refunded = fail invalid_argument
pay_if now seller id ref PaymentMode.prepaid PaymentStatus.paid = pure tt
pay_if now seller id ref PaymentMode.prepaid _ =
    modify (λ t. record t { orders = update (is_order seller id) (pay now ref) t.orders })

unfoldable pub mark_paid : ℕ → ℕ → ℕ → MarkPaidRef → Db → Result (Unit {0}) × Db
mark_paid now seller id ref = with_seller_tx seller (do
  o ← lock_order seller id
  pay_if now seller id ref o.details.payment_method o.payment_status)
