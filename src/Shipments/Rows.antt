-- ===== src/Shipments/Rows.antt =====
-- The rows of shipment, allocation_decision and shipment_state_event
-- (backend/migrations/0013_shipments.up.sql and 0023), the requests of
-- backend/internal/shipments/service.go and what backend/internal/carriers/adapter.go answers.
use pikship.Prelude.{ℕ, String, Bool, Option, List, ◌==◌}
use pikship.Prelude.Int.{ℤ}
use pikship.Orders.Rows.{PaymentMode}
use pikship.Orders.Rows

pub data ShipmentState : Type 0 where
  pending_carrier booked in_transit delivered rto_in_progress : ShipmentState
  rto_completed cancelled failed : ShipmentState

abbrev place : ShipmentState → ℕ
place pending_carrier = 0
place booked = 1
place in_transit = 2
place delivered = 3
place rto_in_progress = 4
place rto_completed = 5
place cancelled = 6
place failed = 7

abbrev pub shipment_state_eq : ShipmentState → ShipmentState → Bool
shipment_state_eq a b = place a == place b

-- What the shipment is about: its carrier, its price, its addresses and its parcel.
pub record Parcel : Type 0 where
  pub carrier_code : String
  pub service_type : String
  pub charges : ℤ
  pub cod_amount : ℤ
  pub pickup_location_id : ℕ
  pub pickup_address : String
  pub drop_address : String
  pub drop_pincode : String
  pub weight_g : ℤ
  pub length_mm : ℤ
  pub width_mm : ℤ
  pub height_mm : ℤ

pub record Shipment : Type 0 where
  pub id : ℕ
  pub seller_id : ℕ
  pub order_id : ℕ
  pub decision_id : ℕ
  pub state : ShipmentState
  pub parcel : Parcel
  pub awb : Option String
  pub carrier_shipment_id : Option String
  pub booked_at : Option ℕ
  pub shipped_at : Option ℕ
  pub delivered_at : Option ℕ
  pub cancelled_at : Option ℕ
  pub cancelled_reason : Option String
  pub failed_at : Option ℕ
  pub failed_reason : Option String
  pub last_carrier_error : Option String
  pub attempt_count : ℕ

pub record Decision : Type 0 where
  pub id : ℕ
  pub seller_id : ℕ
  pub order_id : ℕ

pub record StateEvent : Type 0 where
  pub shipment_id : ℕ
  pub seller_id : ℕ
  pub from : ShipmentState
  pub to : ShipmentState
  pub reason : String

-- The tables of the shipments and those of the order service.
pub record Db : Type 0 where
  pub shipments : List Shipment
  pub decisions : List Decision
  pub events : List StateEvent
  pub order_db : pikship.Orders.Rows.Db

pub record Candidate : Type 0 where
  pub carrier : String
  pub service_type : String
  pub total : ℤ

pub record BookRequest : Type 0 where
  pub seller_id : ℕ
  pub order_id : ℕ
  pub candidates : List Candidate
  pub recommended : ℕ
  pub pickup_location_id : ℕ
  pub pickup_address : String
  pub drop_address : String
  pub drop_pincode : String
  pub weight_g : ℤ
  pub length_mm : ℤ
  pub width_mm : ℤ
  pub height_mm : ℤ
  pub payment_mode : PaymentMode
  pub declared_value : ℤ
  pub cod_amount : ℤ

-- The answer of a carrier to a booking: a waybill with the carrier's reference, or an error.
pub data Reply : Type 0 where
  accepted : String → String → Reply
  refused : String → Reply

-- An adapter: its answer to `Book`, for the shipment's id and what is booked.
pub record Adapter : Type 0 where
  pub book : ℕ → Candidate → BookRequest → Reply
