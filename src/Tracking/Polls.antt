-- ===== src/Tracking/Polls.antt =====
-- What the tracking service (backend/internal/tracking/tracking.go) does to the shipments, and how
-- its prediction of their states fares.
use pikship.Prelude.{
  ℕ, ◌≡◌, refl, sym, ap, ◌∙◌, inl, inr, String, true, false, Option, none, some, List, [], ◌∷◌,
  arith, ◌==◌, str_eq, Bool-cases,
}
use mathlib.Core.Path.{subst}
use pikship.Prelude.Table.{select, any}
use pikship.Shipments.Rows.{
  ShipmentState, shipment_state_eq, rto_in_progress, rto_completed, Shipment, Adapter,
}
use pikship.Shipments.Rows
use pikship.Shipments.Store.{is_shipment, get_shipment, has_awb}
use pikship.Shipments.Service.{mark_rto}
use pikship.Shipments.Sound.{IsSound}
use pikship.Tracking.Status.{rto_initiated}
use pikship.Tracking.Service.{
  TrackingEvent, EventRow, Db, has_key, insert_event, apply_transition, next_probable_state, row_of,
  insert_all, canonical_of, ingest_found, ingest_one, ingest_events, poll_fetched, poll_adapter,
  poll_awb, poll_found, poll_now, dedupe_hash,
}
use pikship.Tracking.Moves.{IsSoundDb, apply-IsSound, apply_all-IsSound, inserted, apply-events}

-- What is refused before a prediction: `MarkRTO` of a shipment that is not under way.
rto_refused :
    (seller id : ℕ) (reason : String) (s : Shipment) (db : pikship.Shipments.Rows.Db)
    → select (is_shipment seller id) db.shipments ≡ some s
    → shipment_state_eq s.state ShipmentState.in_transit ≡ false
    → shipment_state_eq s.state ShipmentState.booked ≡ false
    → (mark_rto seller id reason db).1 ≡ db
unfolding mark_rto get_shipment
rto_refused seller id reason s db found a b = ground arith

-- For a shipment that is neither booked nor in transit nor returning, a return that the carrier
-- reports leaves the tables as they are, and the state that PollNow goes on with is not the
-- shipment's.
pub rto_prediction_diverges :
    (now seller id : ℕ) (s : Shipment) (db : Db)
    → select (is_shipment seller id) db.shipment_db.shipments ≡ some s
    → shipment_state_eq s.state ShipmentState.in_transit ≡ false
    → shipment_state_eq s.state ShipmentState.booked ≡ false
    → shipment_state_eq s.state rto_in_progress ≡ false
    → (apply_transition now seller id rto_initiated s.state db ≡ db)
      × (shipment_state_eq s.state (next_probable_state s.state rto_initiated) ≡ false)
unfolding apply_transition next_probable_state
rto_prediction_diverges now seller id s db found a b c = (
  ap (λ t. record db { shipment_db = t })
      (rto_refused seller id "carrier_initiated_rto" s db.shipment_db found a b),
  c,
)

module _ (hash : String → String) (printed : ℕ → String) where
  insert_all-shipments :
      (seller id : ℕ) (es : List TrackingEvent) (db : Db)
      → (insert_all hash printed seller id es db).shipment_db ≡ db.shipment_db
  insert_all-shipments seller id [] db = refl
  insert_all-shipments seller id (e ∷ es) db =
      insert_all-shipments seller id es (insert_event (row_of hash printed seller id "poll" e) db)
      ∙ inserted (row_of hash printed seller id "poll" e) db

  found-events :
      (now : ℕ) (source : String) (e : TrackingEvent) (s : Option Shipment) (db : Db)
      → any (has_key (dedupe_hash hash printed e)) db.events ≡ true
      → (ingest_found hash printed now source e s db).events ≡ db.events
  unfolding insert_event
  found-events now source e none db there = refl
  found-events now source e (some s) db there =
      apply-events now s.seller_id s.id (canonical_of e) s.state
        (insert_event (row_of hash printed s.seller_id s.id source e) db)
      ∙ rw there refl

  -- An event whose key is in the table is not inserted again.
  pub ingest_one-once :
      (now : ℕ) (source : String) (e : TrackingEvent) (db : Db)
      → any (has_key (dedupe_hash hash printed e)) db.events ≡ true
      → (ingest_one hash printed now source e db).events ≡ db.events
  unfolding ingest_one
  ingest_one-once now source e db there =
      found-events now source e
        (select (λ (s : Shipment). has_awb e.awb_number s.awb) db.shipment_db.shipments) db there

  found-IsSound :
      (now : ℕ) (source : String) (e : TrackingEvent) (s : Option Shipment) (db : Db)
      → IsSoundDb db
      → IsSoundDb (ingest_found hash printed now source e s db)
  found-IsSound now source e none db sound = sound
  found-IsSound now source e (some s) db sound =
      let row : EventRow = row_of hash printed s.seller_id s.id source e in
      apply-IsSound now s.seller_id s.id (canonical_of e) s.state (insert_event row db)
        (subst IsSound (sym (inserted row db)) sound)

  -- IngestEvents keeps sound shipments sound, whatever the events are.
  pub ingest-IsSound :
      (now : ℕ) (source : String) (es : List TrackingEvent) (db : Db)
      → IsSoundDb db
      → IsSoundDb (ingest_events hash printed now source es db)
  unfolding ingest_one
  ingest-IsSound now source [] db sound = sound
  ingest-IsSound now source (e ∷ es) db sound =
      ingest-IsSound now source es (ingest_one hash printed now source e db) (
        found-IsSound now source e
          (select (λ (s : Shipment). has_awb e.awb_number s.awb) db.shipment_db.shipments) db sound)

  module _ (by_time : List TrackingEvent → List TrackingEvent)
      (registry : String → Option (String → Option (List TrackingEvent))) where
    fetched-IsSound :
        (now seller id : ℕ) (current : ShipmentState) (es : Option (List TrackingEvent)) (db : Db)
        → IsSoundDb db
        → IsSoundDb (poll_fetched hash printed by_time registry now seller id current es db).1
    fetched-IsSound now seller id current none db sound = sound
    fetched-IsSound now seller id current (some es) db sound =
        apply_all-IsSound now seller id (by_time es) current
          (insert_all hash printed seller id (by_time es) db)
          (subst IsSound (sym (insert_all-shipments seller id (by_time es) db)) sound)

    adapter-IsSound :
        (now seller id : ℕ) (awb : String) (current : ShipmentState)
        (fetch : Option (String → Option (List TrackingEvent))) (db : Db)
        → IsSoundDb db
        → IsSoundDb
            (poll_adapter hash printed by_time registry now seller id awb current fetch db).1
    adapter-IsSound now seller id awb current none db sound = sound
    adapter-IsSound now seller id awb current (some fetch) db sound =
        fetched-IsSound now seller id current (fetch awb) db sound

    awb-IsSound :
        (now seller id : ℕ) (s : Shipment) (awb : Option String) (db : Db)
        → IsSoundDb db
        → IsSoundDb (poll_awb hash printed by_time registry now seller id s awb db).1
    awb-IsSound now seller id s none db sound = sound
    awb-IsSound now seller id s (some awb) db sound = elim (Bool-cases (str_eq awb "")) [
      | inl empty ↦ rw empty sound
      | inr there ↦
          rw there
            (adapter-IsSound now seller id awb s.state (registry s.parcel.carrier_code) db sound)
    ]

    found_poll-IsSound :
        (now seller id : ℕ) (s : Option Shipment) (db : Db)
        → IsSoundDb db
        → IsSoundDb (poll_found hash printed by_time registry now seller id s db).1
    found_poll-IsSound now seller id none db sound = sound
    found_poll-IsSound now seller id (some s) db sound = awb-IsSound now seller id s s.awb db sound

    -- PollNow keeps sound shipments sound, whatever events the carrier reports, in whatever order
    -- and under whatever hash.
    pub poll-IsSound :
        (now seller id : ℕ) (db : Db)
        → IsSoundDb db
        → IsSoundDb (poll_now hash printed by_time registry now seller id db).1
    unfolding poll_now
    poll-IsSound now seller id db sound = elim (Bool-cases (seller == 0)) [
      | inl zero ↦ rw zero sound
      | inr scoped ↦ rw scoped (
          found_poll-IsSound now seller id (select (is_shipment seller id) db.shipment_db.shipments)
            db sound)
    ]

    -- Calls of the tracking service in any order.
    pub data Reach (db : Db) : Db → Type 0 where
      here : Reach db db
      ingests :
          {t : Db} (now : ℕ) (source : String) (es : List TrackingEvent)
          → Reach db t
          → Reach db (ingest_events hash printed now source es t)
      polls :
          {t : Db} (now seller id : ℕ)
          → Reach db t
          → Reach db (poll_now hash printed by_time registry now seller id t).1

    Reach-IsSoundDb : {s t : Db} → Reach s t → IsSoundDb s → IsSoundDb t
    Reach-IsSoundDb here sound = sound
    Reach-IsSoundDb (ingests now source es r) sound =
        ingest-IsSound now source es _ (Reach-IsSoundDb r sound)
    Reach-IsSoundDb (polls now seller id r) sound =
        poll-IsSound now seller id _ (Reach-IsSoundDb r sound)
