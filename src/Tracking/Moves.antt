-- ===== src/Tracking/Moves.antt =====
-- What the moves of backend/internal/tracking/tracking.go keep of the shipments and the events.
use pikship.Prelude.{ℕ, ◌≡◌, refl, inl, inr, String, Option, none, List, [], ◌∷◌, arith, Bool-cases}
use pikship.Prelude.Tx.{Result}
use pikship.Shipments.Rows.{
  ShipmentState, shipment_state_eq, rto_in_progress, rto_completed, Shipment, Adapter,
}
use pikship.Shipments.Rows
use pikship.Shipments.Service.{mark_in_transit, mark_delivered}
use pikship.Shipments.Calls.{Call, IsFreshCall, after, after-Run}
use pikship.Shipments.Sound.{IsSound, Run-IsSound}
use pikship.Tracking.Status.{
  CanonicalStatus, picked_up, in_transit, out_for_delivery, delivered, rto_initiated, rto_delivered,
  exception, pending, manifested,
}
use pikship.Tracking.Service.{
  TrackingEvent, EventRow, Db, insert_event, on_shipments, apply_transition, next_probable_state,
  apply_all, if_at, canonical_of,
}

-- Sound shipments, whatever the events are.
abbrev pub IsSoundDb : Db → Type 0
IsSoundDb db = IsSound db.shipment_db

abbrev nobody : String → Option Adapter
nobody _ = none

pub if_at-IsSound :
    (current st : ShipmentState) (move : Db → Db) (db : Db)
    → IsSoundDb db
    → IsSoundDb (move db)
    → IsSoundDb (if_at current st move db)
if_at-IsSound current st move db sound next = elim (Bool-cases (shipment_state_eq current st)) [
  | inl at ↦ rw at next
  | inr off ↦ rw off sound
]

pub call-IsSound :
    (call : Call) (t : pikship.Shipments.Rows.Db)
    → IsFreshCall call t
    → IsSound t
    → IsSound (after nobody call t)
call-IsSound call t fresh sound = Run-IsSound (after-Run nobody call t (λ code a h. cc) fresh) sound

pub apply-IsSound :
    (now seller id : ℕ) (c : CanonicalStatus) (current : ShipmentState) (db : Db)
    → IsSoundDb db
    → IsSoundDb (apply_transition now seller id c current db)
unfolding apply_transition after
apply-IsSound now seller id picked_up current db sound =
    if_at-IsSound current ShipmentState.booked (on_shipments (mark_in_transit now seller id)) db
      sound (call-IsSound (Call.ships now seller id) db.shipment_db tt sound)
apply-IsSound now seller id in_transit current db sound =
    if_at-IsSound current ShipmentState.booked (on_shipments (mark_in_transit now seller id)) db
      sound (call-IsSound (Call.ships now seller id) db.shipment_db tt sound)
apply-IsSound now seller id out_for_delivery current db sound =
    if_at-IsSound current ShipmentState.booked (on_shipments (mark_in_transit now seller id)) db
      sound (call-IsSound (Call.ships now seller id) db.shipment_db tt sound)
apply-IsSound now seller id delivered current db sound =
    if_at-IsSound current ShipmentState.in_transit (on_shipments (mark_delivered now seller id)) db
      sound (call-IsSound (Call.delivers now seller id) db.shipment_db tt sound)
apply-IsSound now seller id rto_initiated current db sound =
    call-IsSound (Call.returns seller id "carrier_initiated_rto") db.shipment_db tt sound
apply-IsSound now seller id rto_delivered current db sound =
    call-IsSound (Call.completes now seller id) db.shipment_db tt sound
apply-IsSound now seller id exception current db sound = sound
apply-IsSound now seller id pending current db sound = sound
apply-IsSound now seller id manifested current db sound = sound

pub apply_all-IsSound :
    (now seller id : ℕ) (es : List TrackingEvent) (current : ShipmentState) (db : Db)
    → IsSoundDb db
    → IsSoundDb (apply_all now seller id es current db)
apply_all-IsSound now seller id [] current db sound = sound
apply_all-IsSound now seller id (e ∷ es) current db sound =
    apply_all-IsSound now seller id es (next_probable_state current (canonical_of e))
      (apply_transition now seller id (canonical_of e) current db)
      (apply-IsSound now seller id (canonical_of e) current db sound)

-- An event leaves the shipments alone.
pub inserted : (r : EventRow) (db : Db) → (insert_event r db).shipment_db ≡ db.shipment_db
unfolding insert_event
inserted r db = ground arith

-- The moves leave the events alone.
pub if_at-events :
    (current st : ShipmentState)
    (call : pikship.Shipments.Rows.Db → Result (Unit {0}) × pikship.Shipments.Rows.Db) (db : Db)
    → (if_at current st (on_shipments call) db).events ≡ db.events
if_at-events current st call db = elim (Bool-cases (shipment_state_eq current st)) [
  | inl at ↦ rw at refl
  | inr off ↦ rw off refl
]

pub apply-events :
    (now seller id : ℕ) (c : CanonicalStatus) (current : ShipmentState) (db : Db)
    → (apply_transition now seller id c current db).events ≡ db.events
unfolding apply_transition
apply-events now seller id picked_up current db =
    if_at-events current ShipmentState.booked (mark_in_transit now seller id) db
apply-events now seller id in_transit current db =
    if_at-events current ShipmentState.booked (mark_in_transit now seller id) db
apply-events now seller id out_for_delivery current db =
    if_at-events current ShipmentState.booked (mark_in_transit now seller id) db
apply-events now seller id delivered current db =
    if_at-events current ShipmentState.in_transit (mark_delivered now seller id) db
apply-events now seller id rto_initiated current db = refl
apply-events now seller id rto_delivered current db = refl
apply-events now seller id exception current db = refl
apply-events now seller id pending current db = refl
apply-events now seller id manifested current db = refl
