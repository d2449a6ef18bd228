-- ===== src/Tracking/Service.antt =====
-- backend/internal/tracking/tracking.go: `IngestEvents`, `PollNow` and the moves that they cause.
-- The hash of an event's identity, its printed time, the sort by time and the carriers are
-- parameters.
use pikship.Prelude.{
  ℕ, String, Bool, Option, none, some, List, [], ◌∷◌, ◌==◌, str_eq, if◌then◌else◌,
}
use Prim.Native.String.{◌++◌}
use pikship.Prelude.Table.{select, any}
use pikship.Prelude.Tx.{not_found, invalid_argument, plain, seller_scope, Result, ok, err}
use pikship.Shipments.Rows.{
  ShipmentState, rto_in_progress, rto_completed, shipment_state_eq, Shipment,
}
use pikship.Shipments.Rows
use pikship.Shipments.Store.{is_shipment, has_awb}
use pikship.Shipments.Service.{mark_in_transit, mark_delivered, mark_rto, complete_rto}
use pikship.Tracking.Status.{
  CanonicalStatus, picked_up, in_transit, out_for_delivery, delivered, rto_initiated, rto_delivered,
  normalise,
}

-- carriers.TrackingEvent.
pub record TrackingEvent : Type 0 where
  pub carrier_code : String
  pub awb_number : String
  pub status : String
  pub status_code : String
  pub location : String
  pub remarks : String
  pub timestamp : ℕ

-- tracking_event.
pub record EventRow : Type 0 where
  pub shipment_id : ℕ
  pub seller_id : ℕ
  pub event : TrackingEvent
  pub canonical : CanonicalStatus
  pub source : String
  pub dedupe_key : String

pub record Db : Type 0 where
  pub events : List EventRow
  pub shipment_db : pikship.Shipments.Rows.Db

abbrev pub has_key : String → EventRow → Bool
has_key key r = str_eq r.dedupe_key key

-- ON CONFLICT (dedupe_key) DO NOTHING.
unfoldable pub insert_event : EventRow → Db → Db
insert_event r db =
    if any (has_key r.dedupe_key) db.events then db else record db { events = r ∷ db.events }

-- A call of the shipment service, whose error is dropped.
abbrev pub on_shipments :
    (pikship.Shipments.Rows.Db → Result (Unit {0}) × pikship.Shipments.Rows.Db) → Db → Db
on_shipments call db = record db { shipment_db = (call db.shipment_db).1 }

abbrev pub if_at : ShipmentState → ShipmentState → (Db → Db) → Db → Db
if_at current st move db = if shipment_state_eq current st then move db else db

-- `applyTransition`; `current` is the state that the caller believes the shipment is in.
unfoldable pub apply_transition : ℕ → ℕ → ℕ → CanonicalStatus → ShipmentState → Db → Db
apply_transition now seller id picked_up current db =
    if_at current ShipmentState.booked (on_shipments (mark_in_transit now seller id)) db
apply_transition now seller id in_transit current db =
    if_at current ShipmentState.booked (on_shipments (mark_in_transit now seller id)) db
apply_transition now seller id out_for_delivery current db =
    if_at current ShipmentState.booked (on_shipments (mark_in_transit now seller id)) db
apply_transition now seller id delivered current db =
    if_at current ShipmentState.in_transit (on_shipments (mark_delivered now seller id)) db
apply_transition now seller id rto_initiated current db =
    on_shipments (mark_rto seller id "carrier_initiated_rto") db
apply_transition now seller id rto_delivered current db =
    on_shipments (complete_rto now seller id) db
apply_transition now seller id _ current db = db

-- `nextProbableState`.
unfoldable pub next_probable_state : ShipmentState → CanonicalStatus → ShipmentState
next_probable_state current picked_up =
    if shipment_state_eq current ShipmentState.booked then ShipmentState.in_transit else current
next_probable_state current in_transit =
    if shipment_state_eq current ShipmentState.booked then ShipmentState.in_transit else current
next_probable_state current out_for_delivery =
    if shipment_state_eq current ShipmentState.booked then ShipmentState.in_transit else current
next_probable_state current delivered =
    if shipment_state_eq current ShipmentState.in_transit then ShipmentState.delivered else current
next_probable_state current rto_initiated = rto_in_progress
next_probable_state current rto_delivered = rto_completed
next_probable_state current _ = current

abbrev pub canonical_of : TrackingEvent → CanonicalStatus
canonical_of e = normalise e.status_code e.status

-- The second loop of `PollNow`.
abbrev pub apply_all : ℕ → ℕ → ℕ → List TrackingEvent → ShipmentState → Db → Db
apply_all now seller id [] current db = db
apply_all now seller id (e ∷ es) current db =
    apply_all now seller id es (next_probable_state current (canonical_of e))
      (apply_transition now seller id (canonical_of e) current db)

module _ (hash : String → String) (printed : ℕ → String) where
  abbrev pub dedupe_hash : TrackingEvent → String
  dedupe_hash e =
      hash (
        e.carrier_code ++ "|" ++ e.awb_number ++ "|" ++ e.status_code ++ "|" ++ printed e.timestamp)

  abbrev pub row_of : ℕ → ℕ → String → TrackingEvent → EventRow
  row_of seller id source e = record {
    shipment_id = id;
    seller_id = seller;
    event = e;
    canonical = canonical_of e;
    source = source;
    dedupe_key = dedupe_hash e;
  }

  -- The first loop of `PollNow`.
  abbrev pub insert_all : ℕ → ℕ → List TrackingEvent → Db → Db
  insert_all seller id [] db = db
  insert_all seller id (e ∷ es) db =
      insert_all seller id es (insert_event (row_of seller id "poll" e) db)

  abbrev pub ingest_found : ℕ → String → TrackingEvent → Option Shipment → Db → Db
  ingest_found now source e none db = db
  ingest_found now source e (some s) db =
      apply_transition now s.seller_id s.id (canonical_of e) s.state
        (insert_event (row_of s.seller_id s.id source e) db)

  -- An unknown waybill is ignored.
  unfoldable pub ingest_one : ℕ → String → TrackingEvent → Db → Db
  ingest_one now source e db =
      ingest_found now source e
        (select (λ (s : Shipment). has_awb e.awb_number s.awb) db.shipment_db.shipments) db

  abbrev pub ingest_events : ℕ → String → List TrackingEvent → Db → Db
  ingest_events now source [] db = db
  ingest_events now source (e ∷ es) db = ingest_events now source es (ingest_one now source e db)

  module _ (by_time : List TrackingEvent → List TrackingEvent)
      (registry : String → Option (String → Option (List TrackingEvent))) where
    abbrev pub poll_fetched :
        ℕ → ℕ → ℕ → ShipmentState → Option (List TrackingEvent) → Db → Result (Unit {0}) × Db
    poll_fetched now seller id current none db = (err plain, db)
    poll_fetched now seller id current (some es) db =
        (ok tt, apply_all now seller id (by_time es) current (insert_all seller id (by_time es) db))

    abbrev pub poll_adapter :
        ℕ
        → ℕ
        → ℕ
        → String
        → ShipmentState
        → Option (String → Option (List TrackingEvent))
        → Db
        → Result (Unit {0}) × Db
    poll_adapter now seller id awb current none db = (err plain, db)
    poll_adapter now seller id awb current (some fetch) db =
        poll_fetched now seller id current (fetch awb) db

    -- COALESCE(awb, '') and the test on the empty text.
    abbrev pub poll_awb : ℕ → ℕ → ℕ → Shipment → Option String → Db → Result (Unit {0}) × Db
    poll_awb now seller id s none db = (err invalid_argument, db)
    poll_awb now seller id s (some awb) db =
        if str_eq awb ""
        then (err invalid_argument, db)
        else poll_adapter now seller id awb s.state (registry s.parcel.carrier_code) db

    abbrev pub poll_found : ℕ → ℕ → ℕ → Option Shipment → Db → Result (Unit {0}) × Db
    poll_found now seller id none db = (err not_found, db)
    poll_found now seller id (some s) db = poll_awb now seller id s s.awb db

    unfoldable pub poll_now : ℕ → ℕ → ℕ → Db → Result (Unit {0}) × Db
    poll_now now seller id db =
        if seller == 0
        then (err seller_scope, db)
        else poll_found now seller id (select (is_shipment seller id) db.shipment_db.shipments) db
