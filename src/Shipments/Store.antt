-- ===== src/Shipments/Store.antt =====
-- The queries of backend/internal/shipments/service_impl.go, with the constraints of their tables.
use pikship.Prelude.{
  ℕ, ◌+◌, String, Bool, false, not, ◌&&◌, ◌||◌, Option, none, some, ◌∷◌, ◌==◌, str_eq,
  if◌then◌else◌,
}
use pikship.Prelude.Table.{select, update, any}
use pikship.Prelude.Tx.{not_found, database, Result, ok, err, Tx, or_fail, with_seller_tx}
use pikship.Shipments.Rows.{
  ShipmentState, pending_carrier, booked, in_transit, delivered, cancelled, failed, Parcel,
  Shipment, Decision, StateEvent, Db, Candidate, BookRequest,
}
use pikship.Orders.Repo.{coalesce}
use pikship.Orders.Rows

abbrev pub is_shipment : ℕ → ℕ → Shipment → Bool
is_shipment seller id s = s.id == id && s.seller_id == seller

abbrev pub of_order : ℕ → Shipment → Bool
of_order order s = s.order_id == order

abbrev pub decides : ℕ → Decision → Bool
decides order d = d.order_id == order

abbrev pub no_order : ℕ → Db → Bool
no_order order db = not (any (λ (o : pikship.Orders.Rows.Order). o.id == order) db.order_db.orders)

-- PRIMARY KEY (id), UNIQUE (order_id), and the order must exist.
unfoldable pub insert_decision : Decision → Tx Db (Unit {0})
insert_decision d db =
    if any (λ (e : Decision). e.id == d.id) db.decisions
      || (any (decides d.order_id) db.decisions || no_order d.order_id db)
    then err database
    else ok (tt, record db { decisions = d ∷ db.decisions })

abbrev pub parcel_of : Candidate → BookRequest → Parcel
parcel_of c req = record {
  carrier_code = c.carrier;
  service_type = c.service_type;
  charges = c.total;
  cod_amount = req.cod_amount;
  pickup_location_id = req.pickup_location_id;
  pickup_address = req.pickup_address;
  drop_address = req.drop_address;
  drop_pincode = req.drop_pincode;
  weight_g = req.weight_g;
  length_mm = req.length_mm;
  width_mm = req.width_mm;
  height_mm = req.height_mm;
}

abbrev pub new_shipment : ℕ → ℕ → Candidate → BookRequest → Shipment
new_shipment fresh decision c req = record {
  id = fresh;
  seller_id = req.seller_id;
  order_id = req.order_id;
  decision_id = decision;
  state = pending_carrier;
  parcel = parcel_of c req;
  awb = none;
  carrier_shipment_id = none;
  booked_at = none;
  shipped_at = none;
  delivered_at = none;
  cancelled_at = none;
  cancelled_reason = none;
  failed_at = none;
  failed_reason = none;
  last_carrier_error = none;
  attempt_count = 0;
}

-- PRIMARY KEY (id) and shipment_one_per_order.
unfoldable pub insert_shipment : Shipment → Tx Db (Unit {0})
insert_shipment s db =
    if any (λ (e : Shipment). e.id == s.id) db.shipments || any (of_order s.order_id) db.shipments
    then err database
    else ok (tt, record db { shipments = s ∷ db.shipments })

-- An UPDATE of the shipment with the keys.
unfoldable pub set_shipment : ℕ → ℕ → (Shipment → Shipment) → Tx Db (Unit {0})
set_shipment seller id f db =
    ok (tt, record db { shipments = update (is_shipment seller id) f db.shipments })

abbrev pub confirmed : ℕ → String → String → Shipment → Shipment
confirmed now awb ref s = record s {
  state = booked;
  awb = some awb;
  carrier_shipment_id = some ref;
  booked_at = some now;
  attempt_count = s.attempt_count + 1;
}

abbrev pub marked_failed : ℕ → String → Shipment → Shipment
marked_failed now message s = record s {
  state = failed;
  last_carrier_error = some message;
  attempt_count = s.attempt_count + 1;
  failed_at = some now;
  failed_reason = some message;
}

abbrev pub marked_cancelled : ℕ → String → Shipment → Shipment
marked_cancelled now reason s = record s {
  state = cancelled;
  cancelled_at = some now;
  cancelled_reason = some reason;
}

-- The state, with the stamp of a milestone.
abbrev pub stamped : ℕ → ShipmentState → Shipment → Shipment
stamped now in_transit s = record s { state = in_transit; shipped_at = coalesce s.shipped_at now }
stamped now delivered s = record s { state = delivered; delivered_at = coalesce s.delivered_at now }
stamped now to s = record s { state = to }

-- `updateShipmentStateSQL`.
abbrev pub with_state : ShipmentState → Shipment → Shipment
with_state to s = record s { state = to }

abbrev pub has_awb : String → Option String → Bool
has_awb awb none = false
has_awb awb (some a) = str_eq a awb

-- shipment_awb_unique: another row has the waybill.
abbrev pub awb_taken : ℕ → String → Shipment → Bool
awb_taken id awb s = has_awb awb s.awb && not (s.id == id)

abbrev pub state_event : ℕ → ℕ → ShipmentState → ShipmentState → String → StateEvent
state_event seller id from to reason = record {
  shipment_id = id;
  seller_id = seller;
  from = from;
  to = to;
  reason = reason;
}

-- The event's shipment must exist.
unfoldable pub insert_event : StateEvent → Tx Db (Unit {0})
insert_event e db =
    if not (any (λ (s : Shipment). s.id == e.shipment_id) db.shipments)
    then err database
    else ok (tt, record db { events = e ∷ db.events })

unfoldable pub get_shipment : ℕ → ℕ → Tx Db Shipment
get_shipment seller id db = or_fail (select (is_shipment seller id) db.shipments) not_found db

unfoldable pub get : ℕ → ℕ → Db → Result Shipment × Db
get seller id = with_seller_tx seller (get_shipment seller id)
