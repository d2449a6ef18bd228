-- ===== src/Shipments/Examples.antt =====
-- Sample shipments, the theorems applied to them, and runs of the service.
use pikship.Prelude.{◌≡◌, refl, ap, arith, String, Option, some, [], ◌∷◌}
use pikship.Prelude.Int.{pos}
use pikship.Prelude.Tx.{ok}
use pikship.Shipments.Rows.{Shipment, Db, Candidate, BookRequest, Adapter, accepted}
use pikship.Shipments.Store.{new_shipment, confirmed}
use pikship.Shipments.Service.{book_shipment, decision}
use pikship.Shipments.Calls.{Call, NamesWaybillsAll, after}
use pikship.Shipments.Sound.{IsSound, here, next, Reach-IsSound}
use pikship.Shipments.Booking.{IsRefused, book_once}
use pikship.Shipments.Unready.{shipped, book_unready}
use pikship.Orders.State.{OrderState}
use pikship.Orders.Rows.{PaymentMode, Details, Order}
use pikship.Orders.Repo.{new_order}

abbrev details : Details
details = record {
  channel = "manual";
  channel_order_id = "M-1";
  order_ref = "1001";
  buyer_name = "Asha";
  buyer_phone = "+919900000001";
  buyer_email = "a@example.com";
  billing_address = "{}";
  shipping_address = "{}";
  shipping_pincode = "560001";
  shipping_state = "KA";
  payment_method = PaymentMode.prepaid;
  subtotal = pos 99800;
  shipping = pos 0;
  discount = pos 0;
  tax = pos 0;
  total = pos 99800;
  cod_amount = pos 0;
  pickup_location_id = 5;
  weight_g = pos 400;
  length_mm = pos 300;
  width_mm = pos 200;
  height_mm = pos 50;
  notes = "";
  tags = [];
}

abbrev order_in : OrderState → Order
order_in st = record (new_order 21 1000 (record { seller_id = 7; details = details; lines = [] })) {
  state = st;
}

abbrev before : OrderState → Db
before st = record {
  shipments = [];
  decisions = [];
  events = [];
  order_db = record { orders = order_in st ∷ []; events = [] };
}

abbrev candidate : Candidate
candidate = record { carrier = "delhivery"; service_type = "surface"; total = pos 5400 }

abbrev request : BookRequest
request = record {
  seller_id = 7;
  order_id = 21;
  candidates = candidate ∷ [];
  recommended = 0;
  pickup_location_id = 5;
  pickup_address = "{}";
  drop_address = "{}";
  drop_pincode = "560001";
  weight_g = pos 400;
  length_mm = pos 300;
  width_mm = pos 200;
  height_mm = pos 50;
  payment_mode = PaymentMode.prepaid;
  declared_value = pos 99800;
  cod_amount = pos 0;
}

-- A carrier that takes every booking.
abbrev willing : Adapter
willing = record { book = λ id c req. accepted "AWB1" "REF1" }

abbrev registry : String → Option Adapter
registry code = some willing

abbrev booked_one : Shipment
booked_one = confirmed 1020 "AWB1" "REF1" (new_shipment 31 41 candidate request)

abbrev one_booked : Db
one_booked = record (before OrderState.booked) {
  shipments = booked_one ∷ [];
  decisions = decision 41 request ∷ [];
}

willing_names : NamesWaybillsAll registry
willing_names code a h id c req = ground arith

empty-IsSound : IsSound (before OrderState.ready)
empty-IsSound seller id s h = cc

Reach-IsSound_example : IsSound (
    after registry
      (Call.ships 1030 7 31)
      (after registry (Call.books 31 41 1020 request) (before OrderState.ready)))
Reach-IsSound_example =
    Reach-IsSound registry willing_names
      (next (Call.ships 1030 7 31) (next (Call.books 31 41 1020 request) here refl) tt)
      empty-IsSound

book_once_example : IsRefused one_booked (book_shipment registry 32 42 1040 request one_booked)
book_once_example = book_once registry 32 42 1040 request one_booked refl

-- The order is cancelled.
book_unready_example : book_shipment registry 31 41 1020 request (before OrderState.cancelled) ≡ (
  ok booked_one,
  shipped 31 41 1020 candidate request "AWB1" "REF1" (before OrderState.cancelled),
)
book_unready_example =
    book_unready registry 31 41 1020 willing candidate request (order_in OrderState.cancelled)
      "AWB1" "REF1" (before OrderState.cancelled) refl refl refl refl refl refl refl refl refl

-- A carrier that takes a booking and names no waybill leaves a booked shipment with an empty one.
abbrev careless : Adapter
careless = record { book = λ id c req. accepted "" "" }

careless_books :
    (book_shipment (λ code. some careless) 31 41 1020 request (before OrderState.cancelled)).0
    ≡ ok (confirmed 1020 "" "" (new_shipment 31 41 candidate request))
careless_books =
    ap (λ x. x.0)
      (book_unready (λ code. some careless) 31 41 1020 careless candidate request
        (order_in OrderState.cancelled) "" "" (before OrderState.cancelled) refl refl refl refl refl
        refl refl refl refl)
