-- ===== src/Shipments/Steps.antt =====
-- The transactions and the parts of backend/internal/shipments/service_impl.go as runs of allowed moves.
use pikship.Prelude.{
  ℕ, ◌≡◌, refl, sym, ◌⊎◌, inl, inr, String, true, some, arith, false, str_eq, Option-cases,
}
use mathlib.Core.Path.{subst}
use pikship.Prelude.Table.{select}
use pikship.Prelude.Tx.{Result, ok, err, with_seller_tx}
use pikship.Shipments.Rows.{
  ShipmentState, pending_carrier, booked, in_transit, delivered, rto_in_progress, rto_completed,
  cancelled, failed, shipment_state_eq, Shipment, Db, Candidate, BookRequest, Reply, accepted,
  refused,
}
use pikship.Shipments.Store.{
  is_shipment, confirmed, marked_failed, marked_cancelled, stamped, with_state, get_shipment, get,
}
use pikship.Shipments.Service.{
  confirm_phase_b, mark_failed, on_orders, after_confirm, after_reply, transition, cancel_body,
  mirrored, fan_out, mark_rto, after_lookup,
}
use pikship.Shipments.Moves.{
  may_move, names_waybill, has_waybill, Moves, Run, stop, step, stepped, transition_found,
  transition_missing, cancel_found, cancel_missing, rto_found, rto_missing,
}
use pikship.Shipments.Phases.{confirm_cases, failed_cases}
use pikship.Orders.Rows
use pikship.Orders.Service

state_eq→≡ : (a b : ShipmentState) → shipment_state_eq a b ≡ true → a ≡ b
state_eq→≡ a b h = ground arith

pub still : {s db t : Db} → t ≡ db → Run s db → Run s t
still {s = s} e r = subst (Run s) (sym e) r

-- The orders' tables alone change.
pub on_orders-Run :
    {s : Db} (call : pikship.Orders.Rows.Db → Result (Unit {0}) × pikship.Orders.Rows.Db) (db : Db)
    → Run s db
    → Run s (on_orders call db).1
on_orders-Run call db r = step r (Moves.orders (call db.order_db).1)

stamped_keys :
    (now : ℕ) (to : ShipmentState) (s : Shipment)
    → ((stamped now to s).id ≡ s.id)
      × ((stamped now to s).seller_id ≡ s.seller_id)
      × ((stamped now to s).state ≡ to)
      × ((stamped now to s).awb ≡ s.awb)
stamped_keys now pending_carrier s = (refl, refl, refl, refl)
stamped_keys now booked s = (refl, refl, refl, refl)
stamped_keys now in_transit s = (refl, refl, refl, refl)
stamped_keys now delivered s = (refl, refl, refl, refl)
stamped_keys now rto_in_progress s = (refl, refl, refl, refl)
stamped_keys now rto_completed s = (refl, refl, refl, refl)
stamped_keys now cancelled s = (refl, refl, refl, refl)
stamped_keys now failed s = (refl, refl, refl, refl)

-- A step of `transition` from a state with a carrier.
stepped-Moves :
    (now seller id : ℕ) (s : Shipment) (to : ShipmentState) (reason : String) (db : Db)
    → select (is_shipment seller id) db.shipments ≡ some s
    → may_move s.state to ≡ true
    → (has_waybill s ≡ true → names_waybill s.awb ≡ true)
    → Moves db (stepped seller id (stamped now to) s.state to reason db)
stepped-Moves now seller id s to reason db found allowed there =
    Moves.moved seller id s (stamped now to) to reason found allowed
      (record { id = λ x. (stamped_keys now to x).0; seller_id = λ x. (stamped_keys now to x).1 })
      (λ x. (stamped_keys now to x).2)
      (λ h.
        let (i, k, at, same) = stamped_keys now to s in
        let w : names_waybill s.awb ≡ true = there h in ground (arith, at, same, w))

-- The waybill of a shipment in a state with a carrier.
waybill_there :
    (s : Shipment) (from : ShipmentState)
    → ((from ≡ booked) ⊎ (from ≡ in_transit) ⊎ (from ≡ rto_in_progress))
    → s.state ≡ from
    → has_waybill s ≡ true
    → names_waybill s.awb ≡ true
waybill_there s from which at h = ground (arith, which, at, h)

pub transition-Run :
    {r : Db} (now seller id : ℕ) (from to : ShipmentState) (reason : String) (db : Db)
    → may_move from to ≡ true
    → ((from ≡ booked) ⊎ (from ≡ in_transit) ⊎ (from ≡ rto_in_progress))
    → Run r db
    → Run r (transition now seller id from to reason db).1
transition-Run {r = r} now seller id from to reason db allowed which run =
    elim (Option-cases (select (is_shipment seller id) db.shipments)) [
      | inl gone ↦ still (transition_missing now seller id from to reason db gone).0 run
      | inr (s, found) ↦ elim (transition_found now seller id from to reason s db found) [
        | inl (e, _) ↦ still e run
        | inr (_, here, e) ↦
            let at : s.state ≡ from = state_eq→≡ s.state from here in
            let move : Moves db (stepped seller id (stamped now to) s.state to reason db) =
              stepped-Moves now seller id s to reason db found (rw at allowed)
                (waybill_there s from which at) in
            still e (
              step run (
                subst (λ st. Moves db (stepped seller id (stamped now to) st to reason db)) at
                  move))
      ]
    ]

fan_out-Run :
    {s : Db}
    (mark : ℕ → ℕ → ℕ → pikship.Orders.Rows.Db → Result (Unit {0}) × pikship.Orders.Rows.Db)
    (now seller : ℕ) (r : Result Shipment) (db : Db)
    → Run s db
    → Run s (fan_out mark now seller r db)
fan_out-Run mark now seller (err e) db run = run
fan_out-Run mark now seller (ok x) db run = on_orders-Run (mark now seller x.order_id) db run

pub mirrored-Run :
    {s : Db}
    (mark : ℕ → ℕ → ℕ → pikship.Orders.Rows.Db → Result (Unit {0}) × pikship.Orders.Rows.Db)
    (now seller id : ℕ) (o : Result (Unit {0}) × Db)
    → Run s o.1
    → Run s (mirrored mark now seller id o).1
mirrored-Run mark now seller id (err e, db) run = run
mirrored-Run mark now seller id (ok _, db) run =
    fan_out-Run mark now seller (get seller id db).0 db run

-- Reading a shipment changes nothing.
pub get_same : (seller id : ℕ) (db : Db) → (get seller id db).1 ≡ db
unfolding get get_shipment
get_same seller id db = ground arith

cancel-Run :
    (now seller id : ℕ) (reason : String) (db : Db)
    → Run db (with_seller_tx seller (cancel_body now seller id reason) db).1
cancel-Run now seller id reason db =
    elim (Option-cases (select (is_shipment seller id) db.shipments)) [
      | inl gone ↦ still (cancel_missing now seller id reason db gone) stop
      | inr (s, found) ↦ elim (cancel_found now seller id reason s db found) [
        | inl e ↦ still e stop
        | inr e ↦ still e (
            step stop (
              Moves.moved seller id s (marked_cancelled now reason) cancelled reason found
                (cancel_allowed s.state) (record { id = λ x. refl; seller_id = λ x. refl })
                (λ x. refl) (λ h. refl)))
      ]
    ]
  where
    cancel_allowed : (st : ShipmentState) → may_move st cancelled ≡ true
    cancel_allowed pending_carrier = refl
    cancel_allowed booked = refl
    cancel_allowed in_transit = refl
    cancel_allowed delivered = refl
    cancel_allowed rto_in_progress = refl
    cancel_allowed rto_completed = refl
    cancel_allowed cancelled = refl
    cancel_allowed failed = refl

pub looked_up-Run :
    (now seller id : ℕ) (reason : String) (r : Result Shipment × Db)
    → Run r.1 (after_lookup now seller id reason r).1
looked_up-Run now seller id reason (err e, db) = stop
looked_up-Run now seller id reason (ok _, db) = cancel-Run now seller id reason db

pub rto-Run : (seller id : ℕ) (reason : String) (db : Db) → Run db (mark_rto seller id reason db).1
rto-Run seller id reason db = elim (Option-cases (select (is_shipment seller id) db.shipments)) [
  | inl gone ↦ still (rto_missing seller id reason db gone) stop
  | inr (s, found) ↦ elim (rto_found seller id reason s db found) [
    | inl e ↦ still e stop
    | inr (from, e) ↦
        let allowed : may_move s.state rto_in_progress ≡ true = ground (arith, from) in
        still e (
          step stop (
            Moves.moved seller id s (with_state rto_in_progress) rto_in_progress reason found
              allowed (record { id = λ x. refl; seller_id = λ x. refl }) (λ x. refl)
              (λ h. ground (arith, from, h))))
  ]
]

-- The shipment of phase A is there and pending.
abbrev pub IsPending : ℕ → ℕ → Db → Type 0
IsPending seller id db =
    (s : Shipment) × (select (is_shipment seller id) db.shipments ≡ some s)
    × (s.state ≡ pending_carrier)

confirm-Run :
    {r : Db} (now seller id : ℕ) (awb ref : String) (db : Db)
    → str_eq awb "" ≡ false
    → IsPending seller id db
    → Run r db
    → Run r (confirm_phase_b now seller id awb ref db).1
confirm-Run {r = r} now seller id awb ref db named (s, found, at) run =
    elim (confirm_cases now seller id awb ref db) [
      | inl e ↦ still e run
      | inr e ↦
          let move : Moves db
              (stepped seller id (confirmed now awb ref) s.state booked "carrier confirmed" db) =
            Moves.moved seller id s (confirmed now awb ref) booked "carrier confirmed" found
              (rw at refl) (record { id = λ x. refl; seller_id = λ x. refl }) (λ x. refl)
              (λ h. rw named refl) in
          still e (
            step run (
              subst
                (λ st.
                  Moves db
                    (stepped seller id (confirmed now awb ref) st booked "carrier confirmed" db))
                at move))
    ]

failed-Run :
    {r : Db} (now seller id : ℕ) (message : String) (db : Db)
    → IsPending seller id db
    → Run r db
    → Run r (mark_failed now seller id message db).1
failed-Run {r = r} now seller id message db (s, found, at) run =
    elim (failed_cases now seller id message db) [
      | inl e ↦ still e run
      | inr e ↦
          let move : Moves db
              (stepped seller id (marked_failed now message) s.state failed message db) =
            Moves.moved seller id s (marked_failed now message) failed message found (rw at refl)
              (record { id = λ x. refl; seller_id = λ x. refl }) (λ x. refl) (λ h. refl) in
          still e (
            step run (
              subst
                (λ st.
                  Moves db (stepped seller id (marked_failed now message) st failed message db))
                at move))
    ]

after_confirm-Run :
    {r : Db} (now id : ℕ) (c : Candidate) (req : BookRequest) (awb : String)
    (o : Result (Unit {0}) × Db)
    → Run r o.1
    → Run r (after_confirm now id c req awb o).1
after_confirm-Run now id c req awb (err e, db) run = run
after_confirm-Run now id c req awb (ok _, db) run =
    let call : pikship.Orders.Rows.Db → Result (Unit {0}) × pikship.Orders.Rows.Db =
      pikship.Orders.Service.mark_booked now req.seller_id req.order_id
        (record { awb_number = awb; carrier_code = c.carrier }) in
    still (get_same req.seller_id id (on_orders call db).1) (on_orders-Run call db run)

-- A carrier that takes a booking names a waybill.
abbrev pub NamesWaybill : Reply → Type 0
NamesWaybill (refused message) = Unit {0}
NamesWaybill (accepted awb ref) = str_eq awb "" ≡ false

pub reply-Run :
    {r : Db} (now id : ℕ) (c : Candidate) (req : BookRequest) (reply : Reply) (db : Db)
    → NamesWaybill reply
    → IsPending req.seller_id id db
    → Run r db
    → Run r (after_reply now id c req reply db).1
reply-Run now id c req (refused message) db named pending run =
    failed-Run now req.seller_id id message db pending run
reply-Run now id c req (accepted awb ref) db named pending run =
    after_confirm-Run now id c req awb (confirm_phase_b now req.seller_id id awb ref db)
      (confirm-Run now req.seller_id id awb ref db named pending run)
