-- ===== src/Orders/Rows.antt =====
-- The rows of order_record, order_line and order_state_event (backend/migrations/0011_orders.up.sql,
-- 0023 and 0024) and the requests of backend/internal/orders/service.go.
use pikship.Prelude.{ℕ, String, Option, List}
use pikship.Prelude.Int.{ℤ}
use pikship.Orders.State.{OrderState}

pub data PaymentMode : Type 0 where
  prepaid cod : PaymentMode

pub data PaymentStatus : Type 0 where
  unpaid paid refunded pending_cod cod_collected : PaymentStatus

pub record OrderLine : Type 0 where
  pub line_no : ℕ
  pub sku : String
  pub name : String
  pub quantity : ℕ
  pub unit_price : ℤ
  pub unit_weight_g : ℕ
  pub hsn_code : String
  pub category_hint : String

-- What a request to create an order carries, less its seller and its lines. An address is kept as
-- the text that is stored.
pub record Details : Type 0 where
  pub channel : String
  pub channel_order_id : String
  pub order_ref : String
  pub buyer_name : String
  pub buyer_phone : String
  pub buyer_email : String
  pub billing_address : String
  pub shipping_address : String
  pub shipping_pincode : String
  pub shipping_state : String
  pub payment_method : PaymentMode
  pub subtotal : ℤ
  pub shipping : ℤ
  pub discount : ℤ
  pub tax : ℤ
  pub total : ℤ
  pub cod_amount : ℤ
  pub pickup_location_id : ℕ
  pub weight_g : ℤ
  pub length_mm : ℤ
  pub width_mm : ℤ
  pub height_mm : ℤ
  pub notes : String
  pub tags : List String

pub record CreateRequest : Type 0 where
  pub seller_id : ℕ
  pub details : Details
  pub lines : List OrderLine

pub record Order : Type 0 where
  pub id : ℕ
  pub seller_id : ℕ
  pub state : OrderState
  pub details : Details
  pub lines : List OrderLine
  pub awb_number : Option String
  pub carrier_code : Option String
  pub booked_at : Option ℕ
  pub shipped_at : Option ℕ
  pub delivered_at : Option ℕ
  pub cancelled_at : Option ℕ
  pub cancelled_reason : Option String
  pub payment_status : PaymentStatus
  pub paid_at : Option ℕ
  pub paid_reference : Option String
  pub paid_by : Option ℕ
  pub created_at : ℕ
  pub updated_at : ℕ

pub record StateEvent : Type 0 where
  pub order_id : ℕ
  pub seller_id : ℕ
  pub from : OrderState
  pub to : OrderState
  pub reason : String

pub record Db : Type 0 where
  pub orders : List Order
  pub events : List StateEvent

pub record BookedRef : Type 0 where
  pub awb_number : String
  pub carrier_code : String

pub record MarkPaidRef : Type 0 where
  pub reference : String
  pub paid_by : Option ℕ

pub record UpdatePatch : Type 0 where
  pub buyer_phone : Option String
  pub buyer_email : Option String
  pub shipping_address : Option String
  pub billing_address : Option String
  pub notes : Option String
  pub tags : Option (List String)
