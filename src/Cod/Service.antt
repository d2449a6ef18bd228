-- ===== src/Cod/Service.antt =====
-- backend/internal/cod/cod.go with the wallet that it credits, on a pool that sees the rows of all
-- sellers. `now` is the clock, `fresh` the id of a ledger entry and `shipment_text` prints an id.
use pikship.Prelude.{
  ℕ, String, Bool, true, false, ◌&&◌, Option, none, some, List, ◌∷◌, ◌==◌, if◌then◌else◌,
}
use pikship.Prelude.Int.{ℤ}
use pikship.Prelude.Table.{select, update, any}
use pikship.Prelude.Tx.{not_found, plain, database, Result, ok, err}
use pikship.Wallet.Rows.{Ref}
use pikship.Wallet.Rows
use pikship.Wallet.Service.{credit_account}

pub data CodState : Type 0 where
  pending collected remitted disputed : CodState

-- cod_shipment (backend/migrations/0015_post_delivery.up.sql).
pub record CodShipment : Type 0 where
  pub shipment_id : ℕ
  pub seller_id : ℕ
  pub order_id : ℕ
  pub carrier_code : String
  pub state : CodState
  pub expected_amount : ℤ
  pub carrier_reported : Option ℤ
  pub delivered_at : Option ℕ
  pub remitted_at : Option ℕ

pub record Db : Type 0 where
  pub cods : List CodShipment
  pub wallet : pikship.Wallet.Rows.Db

abbrev pub has_shipment : ℕ → CodShipment → Bool
has_shipment id c = c.shipment_id == id

abbrev pub is_cod : ℕ → ℕ → CodShipment → Bool
is_cod seller id c = c.shipment_id == id && c.seller_id == seller

abbrev pub is_pending : CodState → Bool
is_pending CodState.pending = true
is_pending _ = false

abbrev pub is_collected : CodState → Bool
is_collected CodState.collected = true
is_collected _ = false

abbrev pub new_cod : ℕ → ℕ → ℕ → String → ℤ → CodShipment
new_cod seller id order carrier expected = record {
  shipment_id = id;
  seller_id = seller;
  order_id = order;
  carrier_code = carrier;
  state = CodState.pending;
  expected_amount = expected;
  carrier_reported = none;
  delivered_at = none;
  remitted_at = none;
}

-- `Register`: ON CONFLICT (shipment_id) DO NOTHING.
unfoldable pub register : ℕ → ℕ → ℕ → String → ℤ → Db → Result (Unit {0}) × Db
register seller id order carrier expected db = (
  ok tt,
  if any (has_shipment id) db.cods
      then db
      else record db { cods = new_cod seller id order carrier expected ∷ db.cods },
)

abbrev pub collect : ℤ → ℕ → CodShipment → CodShipment
collect reported at c = record c {
  state = CodState.collected;
  carrier_reported = some reported;
  delivered_at = some at;
}

-- `MarkCollected`: a shipment that is not pending is left alone, without an error.
unfoldable pub mark_collected : ℕ → ℕ → ℤ → ℕ → Db → Result (Unit {0}) × Db
mark_collected seller id reported at db = (
  ok tt,
  record db {
    cods = update (λ c. is_cod seller id c && is_pending c.state) (collect reported at) db.cods;
  },
)

-- `Get`.
unfoldable pub get : ℕ → ℕ → Db → Result CodShipment
get seller id db = elim (select (is_cod seller id) db.cods) [ none ↦ err not_found | some c ↦ ok c ]

abbrev pub reported_or : Option ℤ → ℤ → ℤ
reported_or none expected = expected
reported_or (some reported) expected = reported

abbrev pub amount_of : CodShipment → ℤ
amount_of c = reported_or c.carrier_reported c.expected_amount

abbrev pub pay_out : ℕ → CodShipment → CodShipment
pay_out now c = record c { state = CodState.remitted; remitted_at = some now }

-- The update after the credit, a statement of its own: `down` says that it fails.
abbrev pub mark_remitted :
    Bool → ℕ → ℕ → ℕ → Db → Result (Unit {0}) × pikship.Wallet.Rows.Db → Result (Unit {0}) × Db
mark_remitted down now seller id db (err e, w) = (err e, record db { wallet = w })
mark_remitted down now seller id db (ok _, w) =
    if down
    then (err database, record db { wallet = w })
    else (ok tt, record { cods = update (is_cod seller id) (pay_out now) db.cods; wallet = w })

module _ (shipment_text : ℕ → String) where
  abbrev pub cod_ref : ℕ → Ref
  cod_ref id = record { kind = "cod_remittance"; id = shipment_text id }

  abbrev pub remit_collected :
      Bool → ℕ → ℕ → ℕ → ℕ → CodShipment → CodState → Db → Result (Unit {0}) × Db
  remit_collected down fresh now seller id c CodState.collected db =
      mark_remitted down now seller id db
        (credit_account fresh seller (amount_of c) (cod_ref id) "cod_remittance" "system" db.wallet)
  remit_collected down fresh now seller id c _ db = (err plain, db)

  abbrev pub remit_found : Bool → ℕ → ℕ → ℕ → ℕ → Result CodShipment → Db → Result (Unit {0}) × Db
  remit_found down fresh now seller id (err e) db = (err e, db)
  remit_found down fresh now seller id (ok c) db =
      remit_collected down fresh now seller id c c.state db

  -- `Remit`.
  unfoldable pub remit : Bool → ℕ → ℕ → ℕ → ℕ → Db → Result (Unit {0}) × Db
  remit down fresh now seller id db = remit_found down fresh now seller id (get seller id db) db
