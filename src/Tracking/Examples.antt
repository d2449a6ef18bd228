-- ===== src/Tracking/Examples.antt =====
-- Events of a carrier, the theorems applied to them, and statuses brought to canonical ones.
use pikship.Prelude.{ℕ, ◌≡◌, refl, String, true, false, Option, none, some, List, [], ◌∷◌}
use pikship.Prelude.Int.{pos}
use pikship.Shipments.Rows.{ShipmentState, shipment_state_eq, Parcel, Shipment}
use pikship.Tracking.Status.{
  delivered, in_transit, rto_initiated, normalise, contains, occurs, codes,
}
use pikship.Tracking.Contains.{StandsIn, occurs_iff}
use pikship.Tracking.Service.{TrackingEvent, Db, apply_transition, next_probable_state, row_of}
use pikship.Tracking.Polls.{rto_prediction_diverges}

abbrev hash : String → String
hash s = s

abbrev printed : ℕ → String
printed _ = "2024-01-01T00:00:00Z"

abbrev by_time : List TrackingEvent → List TrackingEvent
by_time es = es

abbrev parcel : Parcel
parcel = record {
  carrier_code = "delhivery";
  service_type = "surface";
  charges = pos 5400;
  cod_amount = pos 0;
  pickup_location_id = 5;
  pickup_address = "{}";
  drop_address = "{}";
  drop_pincode = "560001";
  weight_g = pos 400;
  length_mm = pos 300;
  width_mm = pos 200;
  height_mm = pos 50;
}

abbrev shipment : Shipment
shipment = record {
  id = 31;
  seller_id = 7;
  order_id = 21;
  decision_id = 41;
  state = ShipmentState.delivered;
  parcel = parcel;
  awb = some "AWB1";
  carrier_shipment_id = some "REF1";
  booked_at = some 1020;
  shipped_at = some 1030;
  delivered_at = some 1040;
  cancelled_at = none;
  cancelled_reason = none;
  failed_at = none;
  failed_reason = none;
  last_carrier_error = none;
  attempt_count = 1;
}

abbrev scan : TrackingEvent
scan = record {
  carrier_code = "delhivery";
  awb_number = "AWB1";
  status = "Delivered to consignee";
  status_code = "XX";
  location = "BLR";
  remarks = "";
  timestamp = 1045;
}

abbrev fetches : String → Option (String → Option (List TrackingEvent))
fetches code = some (λ awb. some (scan ∷ []))

-- No shipment yet.
abbrev nothing : Db
nothing = record {
  events = [];
  shipment_db = record {
    shipments = [];
    decisions = [];
    events = [];
    order_db = record { orders = []; events = [] };
  };
}

abbrev one_delivered : Db
one_delivered = record nothing {
  shipment_db = record nothing.shipment_db { shipments = shipment ∷ [] };
}

abbrev one_scan : Db
one_scan = record one_delivered { events = row_of hash printed 7 31 "webhook" scan ∷ [] }

code_test : normalise "DEL" "in transit" ≡ delivered
unfolding normalise contains
code_test = refl

text_test : normalise "XX" "Package IN TRANSIT to hub" ≡ in_transit
unfolding normalise contains
text_test = refl

-- "undelivered" has "delivered" in it.
undelivered_test : normalise "XX" "Shipment Undelivered" ≡ delivered
unfolding normalise contains
undelivered_test = refl

occurs_iff_example :
    (occurs (codes "ofd") (codes "now ofd") ≡ true → StandsIn (codes "ofd") (codes "now ofd"))
    × (StandsIn (codes "ofd") (codes "now ofd") → occurs (codes "ofd") (codes "now ofd") ≡ true)
occurs_iff_example = occurs_iff (codes "ofd") (codes "now ofd")

rto_prediction_diverges_example :
    (apply_transition 1050 7 31 rto_initiated ShipmentState.delivered one_delivered ≡ one_delivered)
    × (shipment_state_eq ShipmentState.delivered
          (next_probable_state ShipmentState.delivered rto_initiated)
        ≡ false)
rto_prediction_diverges_example =
    rto_prediction_diverges 1050 7 31 shipment one_delivered refl refl refl refl
