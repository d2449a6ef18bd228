-- ===== src/Orders/Examples.antt =====
-- Sample orders, the theorems applied to them, and runs of the service.
use pikship.Prelude.{ℕ, ◌≡◌, refl, Bool, false, none, some, [], ◌∷◌, ◌==◌, ==→≡, ◌⊎◌}
use pikship.Prelude.Int.{pos}
use pikship.Prelude.Tx.{is_ok}
use pikship.Orders.State.{ready, cancelled}
use pikship.Orders.Rows.{
  PaymentMode, OrderLine, Details, CreateRequest, Order, Db, BookedRef, MarkPaidRef, UpdatePatch,
}
use pikship.Orders.Repo.{new_order}
use pikship.Orders.Update.{update_order, update_changes_nothing}
use pikship.Orders.Moves.{IsUnused, Moves}
use pikship.Orders.Calls.{Call, after, after-Moves}
use pikship.Orders.History.{IsLogged, here, next, Reach-IsLogged}
use pikship.Orders.Final.{IsAt, Reach-final}

abbrev line : OrderLine
line = record {
  line_no = 1;
  sku = "TEE";
  name = "T-shirt";
  quantity = 2;
  unit_price = pos 49900;
  unit_weight_g = 200;
  hsn_code = "6109";
  category_hint = "apparel";
}

abbrev details : Details
details = record {
  channel = "manual";
  channel_order_id = "M-1";
  order_ref = "1001";
  buyer_name = "Asha";
  buyer_phone = "+919900000001";
  buyer_email = "a@example.com";
  billing_address = "{}";
  shipping_address = "{}";
  shipping_pincode = "560001";
  shipping_state = "KA";
  payment_method = PaymentMode.prepaid;
  subtotal = pos 99800;
  shipping = pos 0;
  discount = pos 0;
  tax = pos 0;
  total = pos 99800;
  cod_amount = pos 0;
  pickup_location_id = 5;
  weight_g = pos 400;
  length_mm = pos 300;
  width_mm = pos 200;
  height_mm = pos 50;
  notes = "";
  tags = [];
}

abbrev request : CreateRequest
request = record { seller_id = 7; details = details; lines = line ∷ [] }

abbrev no_orders : Db
no_orders = record { orders = []; events = [] }

abbrev order : Order
order = new_order 21 1000 request

abbrev one_order : Db
one_order = record { orders = order ∷ []; events = [] }

abbrev waybill : BookedRef
waybill = record { awb_number = "AWB1"; carrier_code = "delhivery" }

abbrev transfer : MarkPaidRef
transfer = record { reference = "UPI-1"; paid_by = none }

abbrev unused : IsUnused 21 no_orders
unused = record { no_order = refl; no_event = refl }

empty-IsLogged : IsLogged no_orders
empty-IsLogged seller id o h = cc

Reach-IsLogged_example : IsLogged (
    after (Call.books 1030 7 21 waybill) (
      after
        (Call.allocates 1020 7 21)
        (after (Call.readies 1010 7 21) (after (Call.creates 21 1000 request) no_orders))))
Reach-IsLogged_example =
    Reach-IsLogged
      (next (Call.books 1030 7 21 waybill)
        (next (Call.allocates 1020 7 21)
          (next (Call.readies 1010 7 21) (next (Call.creates 21 1000 request) here unused) tt) tt)
        tt)
      empty-IsLogged

after-Moves_example : Moves one_order (after (Call.cancels 1010 7 21 "changed my mind") one_order)
after-Moves_example = after-Moves (Call.cancels 1010 7 21 "changed my mind") one_order tt

-- The order, cancelled.
abbrev dropped : Order
dropped = record order { state = cancelled }

abbrev one_dropped : Db
one_dropped = record { orders = dropped ∷ []; events = [] }

Reach-final_example : IsAt 7 21 cancelled (after (Call.readies 1020 7 21) one_dropped)
Reach-final_example =
    Reach-final (next (Call.readies 1020 7 21) here tt) 7 21 cancelled refl (dropped, refl, refl)

abbrev ready_order : Order
ready_order = record order { state = ready }

abbrev one_ready : Db
one_ready = record { orders = ready_order ∷ []; events = [] }

abbrev new_phone : UpdatePatch
new_phone = record {
  buyer_phone = some "+919900000002";
  buyer_email = none;
  shipping_address = none;
  billing_address = none;
  notes = none;
  tags = none;
}

-- A statement is taken when its highest placeholder is the number of arguments.
abbrev exact_count : ℕ → ℕ → Bool
exact_count highest sent = highest == sent

update_changes_nothing_example :
    ((update_order exact_count 1020 7 21 new_phone one_order).1 ≡ one_order)
    × ((is_ok (update_order exact_count 1020 7 21 new_phone one_order).0 ≡ false)
        ⊎ ((new_phone.buyer_phone ≡ none) × (new_phone.notes ≡ none) × (new_phone.tags ≡ none)))
update_changes_nothing_example =
    update_changes_nothing exact_count (λ highest sent taken. ==→≡ highest sent taken) 1020 7 21
      new_phone one_order
