-- ===== src/Orders/Repo.antt =====
-- backend/internal/orders/repo.go: the queries, with the constraints of their tables.
use pikship.Prelude.{
  ℕ, suc, String, Bool, not, ◌&&◌, ◌||◌, Option, none, some, List, [], ◌∷◌, ◌==◌, str_eq,
}
use pikship.Prelude.Int.{pos, ltb_ℤ, leb_ℤ}
use pikship.Prelude.Table.{select, update, any}
use pikship.Prelude.Tx.{not_found, invalid_argument, database, Tx, ◌>>◌, fail_if, or_fail, modify}
use pikship.Orders.State.{
  OrderState, draft, booked, in_transit, delivered, cancelled, can_transition,
}
use pikship.Orders.Rows.{
  PaymentMode, prepaid, cod, PaymentStatus, unpaid, pending_cod, OrderLine, Details, CreateRequest,
  Order, StateEvent, Db, BookedRef,
}

abbrev pub is_order : ℕ → ℕ → Order → Bool
is_order seller id o = o.id == id && o.seller_id == seller

-- UNIQUE (seller_id, channel, channel_order_id).
abbrev pub is_channel_order : ℕ → String → String → Order → Bool
is_channel_order seller channel ref o =
    o.seller_id == seller
    && (str_eq o.details.channel channel && str_eq o.details.channel_order_id ref)

-- The CHECK constraints of order_record.
abbrev pub row_ok : Details → Bool
row_ok d =
    leb_ℤ (pos 0) d.subtotal
    && leb_ℤ (pos 0) d.total
    && ltb_ℤ (pos 0) d.weight_g
    && ltb_ℤ (pos 0) d.length_mm
    && ltb_ℤ (pos 0) d.width_mm
    && ltb_ℤ (pos 0) d.height_mm

-- The CHECK constraints of order_line.
abbrev pub bad_line : OrderLine → Bool
bad_line l = l.quantity == 0 || ltb_ℤ l.unit_price (pos 0)

-- CASE WHEN payment_method = 'cod' THEN 'pending_cod' ELSE 'unpaid' END.
abbrev pub first_status : PaymentMode → PaymentStatus
first_status cod = pending_cod
first_status prepaid = unpaid

-- The lines are numbered from 1 in the order of the request.
abbrev pub number_lines : ℕ → List OrderLine → List OrderLine
number_lines n [] = []
number_lines n (l ∷ ls) = record l { line_no = suc n } ∷ number_lines (suc n) ls

abbrev pub new_order : ℕ → ℕ → CreateRequest → Order
new_order fresh now req = record {
  id = fresh;
  seller_id = req.seller_id;
  state = draft;
  details = req.details;
  lines = number_lines 0 req.lines;
  awb_number = none;
  carrier_code = none;
  booked_at = none;
  shipped_at = none;
  delivered_at = none;
  cancelled_at = none;
  cancelled_reason = none;
  payment_status = first_status req.details.payment_method;
  paid_at = none;
  paid_reference = none;
  paid_by = none;
  created_at = now;
  updated_at = now;
}

unfoldable pub get_order : ℕ → ℕ → Tx Db Order
get_order seller id db = or_fail (select (is_order seller id) db.orders) not_found db

unfoldable pub get_order_by_channel : ℕ → String → String → Tx Db Order
get_order_by_channel seller channel ref db =
    or_fail (select (is_channel_order seller channel ref) db.orders) not_found db

unfoldable pub insert_order : ℕ → ℕ → CreateRequest → Tx Db Order
unfolding get_order
insert_order fresh now req db =
    (fail_if (not (row_ok req.details)) database
        >> fail_if
            (any (is_channel_order req.seller_id req.details.channel req.details.channel_order_id)
              db.orders)
            database
        >> fail_if (any (λ (o : Order). o.id == fresh) db.orders) database
        >> fail_if (any bad_line req.lines) database
        >> modify (λ t. record t { orders = new_order fresh now req ∷ t.orders })
        >> get_order req.seller_id fresh)
      db

-- COALESCE(column, now()).
abbrev pub coalesce : Option ℕ → ℕ → Option ℕ
coalesce none now = some now
coalesce (some t) now = some t

-- The new state, with shipped_at or delivered_at stamped where the state is a milestone.
abbrev pub stamped : ℕ → OrderState → Order → Order
stamped now in_transit o = record o {
  state = in_transit;
  shipped_at = coalesce o.shipped_at now;
  updated_at = now;
}
stamped now delivered o = record o {
  state = delivered;
  delivered_at = coalesce o.delivered_at now;
  updated_at = now;
}
stamped now to o = record o { state = to; updated_at = now }

unfoldable pub set_state : ℕ → ℕ → ℕ → OrderState → Tx Db (Unit {0})
set_state now seller id to =
    modify (λ t. record t { orders = update (is_order seller id) (stamped now to) t.orders })

abbrev pub state_event : ℕ → ℕ → OrderState → OrderState → String → StateEvent
state_event seller id from to reason = record {
  order_id = id;
  seller_id = seller;
  from = from;
  to = to;
  reason = reason;
}

unfoldable pub insert_state_event : ℕ → ℕ → OrderState → OrderState → String → Tx Db (Unit {0})
insert_state_event seller id from to reason =
    modify (λ t. record t { events = state_event seller id from to reason ∷ t.events })

unfoldable pub transition_state : ℕ → ℕ → ℕ → OrderState → OrderState → String → Tx Db (Unit {0})
unfolding set_state insert_state_event
transition_state now seller id from to reason db =
    (fail_if (not (can_transition from to)) invalid_argument
        >> set_state now seller id to
        >> insert_state_event seller id from to reason)
      db

abbrev pub book : ℕ → BookedRef → Order → Order
book now ref o = record o {
  state = booked;
  awb_number = some ref.awb_number;
  carrier_code = some ref.carrier_code;
  booked_at = some now;
  updated_at = now;
}

unfoldable pub book_order_row : ℕ → ℕ → ℕ → BookedRef → Tx Db (Unit {0})
book_order_row now seller id ref =
    modify (λ t. record t { orders = update (is_order seller id) (book now ref) t.orders })

abbrev pub cancel : ℕ → String → Order → Order
cancel now reason o = record o {
  state = cancelled;
  cancelled_at = some now;
  cancelled_reason = some reason;
  updated_at = now;
}

unfoldable pub cancel_order_row : ℕ → ℕ → ℕ → String → Tx Db (Unit {0})
cancel_order_row now seller id reason =
    modify (λ t. record t { orders = update (is_order seller id) (cancel now reason) t.orders })
