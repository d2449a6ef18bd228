-- ===== src/Shipments/Moves.antt =====
-- The moves of a shipment, as a step relation on the tables, and what the transactions of
-- backend/internal/shipments/service_impl.go do to them.
use pikship.Prelude.{
  ℕ, ◌≡◌, ◌⊎◌, String, Bool, true, false, none, some, ◌∷◌, arith, ◌==◌, not, str_eq, Option,
  if◌then◌else◌,
}
use pikship.Prelude.Table.{select, update, any}
use pikship.Prelude.Tx.{is_ok, ok, with_seller_tx}
use pikship.Shipments.Rows.{
  ShipmentState, pending_carrier, booked, in_transit, delivered, rto_in_progress, rto_completed,
  cancelled, failed, shipment_state_eq, Shipment, Decision, StateEvent, Db,
}
use pikship.Shipments.Store.{
  is_shipment, set_shipment, marked_cancelled, stamped, with_state, state_event, insert_event,
  get_shipment,
}
use pikship.Shipments.Service.{transition, cancel_body, mark_rto}
use pikship.Orders.Rows

-- The moves that the code lets a shipment make: Cancel has no guard.
abbrev pub may_move : ShipmentState → ShipmentState → Bool
may_move _ cancelled = true
may_move pending_carrier booked = true
may_move pending_carrier failed = true
may_move booked in_transit = true
may_move booked rto_in_progress = true
may_move in_transit delivered = true
may_move in_transit rto_in_progress = true
may_move rto_in_progress rto_completed = true
may_move _ _ = false

-- The states in which a shipment is with a carrier.
abbrev pub with_carrier : ShipmentState → Bool
with_carrier booked = true
with_carrier in_transit = true
with_carrier delivered = true
with_carrier rto_in_progress = true
with_carrier rto_completed = true
with_carrier _ = false

-- The code treats an empty waybill as none.
abbrev pub names_waybill : Option String → Bool
names_waybill none = false
names_waybill (some awb) = not (str_eq awb "")

abbrev pub has_waybill : Shipment → Bool
has_waybill s = if with_carrier s.state then names_waybill s.awb else true

abbrev pub event_of_id : ℕ → StateEvent → Bool
event_of_id id e = e.shipment_id == id

pub record KeepsKeys (f : Shipment → Shipment) : Type 0 where
  pub id : (s : Shipment) → (f s).id ≡ s.id
  pub seller_id : (s : Shipment) → (f s).seller_id ≡ s.seller_id

-- The tables after a change of one shipment, with its event.
abbrev pub stepped :
    ℕ → ℕ → (Shipment → Shipment) → ShipmentState → ShipmentState → String → Db → Db
stepped seller id f from to reason db = record db {
  shipments = update (is_shipment seller id) f db.shipments;
  events = state_event seller id from to reason ∷ db.events;
}

abbrev pub added : Shipment → Decision → Db → Db
added s d db = record db { shipments = s ∷ db.shipments; decisions = d ∷ db.decisions }

-- Any change of the order tables, which the shipments do not depend on; a new shipment; an allowed move of one shipment with its event.
pub data Moves (db : Db) : Db → Type 0 where
  orders : (o : pikship.Orders.Rows.Db) → Moves db (record db { order_db = o })
  opened :
      (s : Shipment) (d : Decision)
      → s.state ≡ pending_carrier
      → any (event_of_id s.id) db.events ≡ false
      → Moves db (added s d db)
  moved :
      (seller id : ℕ) (s : Shipment) (f : Shipment → Shipment) (to : ShipmentState)
      (reason : String)
      → select (is_shipment seller id) db.shipments ≡ some s
      → may_move s.state to ≡ true
      → KeepsKeys f
      → ((x : Shipment) → (f x).state ≡ to)
      → (has_waybill s ≡ true → has_waybill (f s) ≡ true)
      → Moves db (stepped seller id f s.state to reason db)

-- Moves in turn.
pub data Run (s : Db) : Db → Type 0 where
  stop : Run s s
  step : {t u : Db} → Run s t → Moves t u → Run s u

pub transition_found :
    (now seller id : ℕ) (from to : ShipmentState) (reason : String) (s : Shipment) (db : Db)
    → select (is_shipment seller id) db.shipments ≡ some s
    → let (r, t) = transition now seller id from to reason db in
      ((t ≡ db) × (is_ok r ≡ false))
      ⊎ ((r ≡ ok tt)
          × (shipment_state_eq s.state from ≡ true)
          × (t ≡ stepped seller id (stamped now to) from to reason db))
unfolding transition get_shipment set_shipment insert_event
transition_found now seller id from to reason s db found = ground arith

pub transition_missing :
    (now seller id : ℕ) (from to : ShipmentState) (reason : String) (db : Db)
    → select (is_shipment seller id) db.shipments ≡ none
    → ((transition now seller id from to reason db).1 ≡ db)
      × (is_ok (transition now seller id from to reason db).0 ≡ false)
unfolding transition get_shipment
transition_missing now seller id from to reason db gone = ground arith

pub cancel_found :
    (now seller id : ℕ) (reason : String) (s : Shipment) (db : Db)
    → select (is_shipment seller id) db.shipments ≡ some s
    → let t = (with_seller_tx seller (cancel_body now seller id reason) db).1 in
      (t ≡ db) ⊎ (t ≡ stepped seller id (marked_cancelled now reason) s.state cancelled reason db)
unfolding get_shipment set_shipment insert_event
cancel_found now seller id reason s db found = ground arith

pub cancel_missing :
    (now seller id : ℕ) (reason : String) (db : Db)
    → select (is_shipment seller id) db.shipments ≡ none
    → (with_seller_tx seller (cancel_body now seller id reason) db).1 ≡ db
unfolding get_shipment
cancel_missing now seller id reason db gone = ground arith

pub rto_found :
    (seller id : ℕ) (reason : String) (s : Shipment) (db : Db)
    → select (is_shipment seller id) db.shipments ≡ some s
    → let t = (mark_rto seller id reason db).1 in
      (t ≡ db)
      ⊎ (((s.state ≡ in_transit) ⊎ (s.state ≡ booked))
          × (t ≡ stepped seller id (with_state rto_in_progress) s.state rto_in_progress reason db))
unfolding mark_rto get_shipment set_shipment insert_event
rto_found seller id reason s db found = ground arith

pub rto_missing :
    (seller id : ℕ) (reason : String) (db : Db)
    → select (is_shipment seller id) db.shipments ≡ none
    → (mark_rto seller id reason db).1 ≡ db
unfolding mark_rto get_shipment
rto_missing seller id reason db gone = ground arith
