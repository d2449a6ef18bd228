-- ===== src/Shipments/Service.antt =====
-- backend/internal/shipments/service_impl.go. `registry` is the carriers' registry; `now` is the
-- clock. A call makes several transactions, so what it leaves behind is written out step by step.
use pikship.Prelude.{
  ℕ, ◌-◌, String, not, ◌&&◌, Option, none, some, List, [], ◌∷◌, ◌==◌, if◌then◌else◌,
}
use pikship.Prelude.Table.{any}
use pikship.Prelude.Tx.{
  Error, invalid_argument, plain, database, Result, ok, err, Tx, ◌>>=◌, ◌>>◌, pure, fail_if,
  with_seller_tx,
}
use pikship.Shipments.Rows.{
  ShipmentState, pending_carrier, booked, in_transit, delivered, rto_in_progress, rto_completed,
  cancelled, failed, shipment_state_eq, Shipment, Decision, Db, Candidate, BookRequest, Adapter,
  Reply, accepted, refused,
}
use pikship.Shipments.Store.{
  is_shipment, insert_decision, insert_shipment, new_shipment, set_shipment, confirmed,
  marked_failed, marked_cancelled, stamped, with_state, awb_taken, state_event, insert_event,
  get_shipment, get,
}
use pikship.Orders.Rows
use pikship.Orders.Service

-- A call of the order service.
abbrev pub on_orders :
    (pikship.Orders.Rows.Db → Result (Unit {0}) × pikship.Orders.Rows.Db)
    → Db
    → Result (Unit {0}) × Db
on_orders call db = let (r, t) = call db.order_db in (r, record db { order_db = t })

-- `Candidates[RecommendedIdx]`; an index out of range panics.
abbrev pub candidate_at : ℕ → List Candidate → Option Candidate
candidate_at n [] = none
candidate_at n (c ∷ cs) = if n == 0 then some c else candidate_at (n - 1) cs

abbrev pub decision : ℕ → BookRequest → Decision
decision id req = record { id = id; seller_id = req.seller_id; order_id = req.order_id }

abbrev pub phase_a_body : ℕ → ℕ → Candidate → BookRequest → Tx Db ℕ
phase_a_body fresh fresh_decision c req db =
    (insert_decision (decision fresh_decision req)
        >> insert_shipment (new_shipment fresh fresh_decision c req)
        >> pure fresh)
      db

unfoldable pub persist_phase_a : ℕ → ℕ → Candidate → BookRequest → Db → Result ℕ × Db
persist_phase_a fresh fresh_decision c req =
    with_seller_tx req.seller_id (phase_a_body fresh fresh_decision c req)

-- shipment_awb_unique refuses the update of a row to a waybill that another has.
unfoldable pub confirm_row : ℕ → ℕ → ℕ → String → String → Tx Db (Unit {0})
confirm_row now seller id awb ref db =
    if any (is_shipment seller id) db.shipments && any (awb_taken id awb) db.shipments
    then err database
    else set_shipment seller id (confirmed now awb ref) db

unfoldable pub confirm_phase_b : ℕ → ℕ → ℕ → String → String → Db → Result (Unit {0}) × Db
confirm_phase_b now seller id awb ref = with_seller_tx seller (λ db.
    (confirm_row now seller id awb ref
        >> insert_event (state_event seller id pending_carrier booked "carrier confirmed"))
      db)

unfoldable pub mark_failed : ℕ → ℕ → ℕ → String → Db → Result (Unit {0}) × Db
mark_failed now seller id message = with_seller_tx seller (λ db.
    (set_shipment seller id (marked_failed now message)
        >> insert_event (state_event seller id pending_carrier failed message))
      db)

-- `MarkBooked` of the order, whose error is logged, and the shipment.
abbrev pub after_confirm :
    ℕ → ℕ → Candidate → BookRequest → String → Result (Unit {0}) × Db → Result Shipment × Db
after_confirm now id c req awb (err e, db) = (err e, db)
after_confirm now id c req awb (ok _, db) =
    get req.seller_id id
      (on_orders
        (pikship.Orders.Service.mark_booked now req.seller_id req.order_id
          (record { awb_number = awb; carrier_code = c.carrier }))
        db).1

abbrev pub after_reply : ℕ → ℕ → Candidate → BookRequest → Reply → Db → Result Shipment × Db
after_reply now id c req (refused message) db =
    (err plain, (mark_failed now req.seller_id id message db).1)
after_reply now id c req (accepted awb ref) db =
    after_confirm now id c req awb (confirm_phase_b now req.seller_id id awb ref db)

abbrev pub after_phase_a :
    ℕ → Adapter → Candidate → BookRequest → Result ℕ × Db → Result Shipment × Db
after_phase_a now adapter c req (err e, db) = (err e, db)
after_phase_a now adapter c req (ok id, db) = after_reply now id c req (adapter.book id c req) db

-- An order that is not ready is tolerated here.
abbrev pub blocks : Result (Unit {0}) → Option Error
blocks (ok _) = none
blocks (err invalid_argument) = none
blocks (err e) = some e

abbrev pub after_allocating :
    ℕ → ℕ → ℕ → Adapter → Candidate → BookRequest → Option Error → Db → Result Shipment × Db
after_allocating fresh fresh_decision now adapter c req (some e) db = (err e, db)
after_allocating fresh fresh_decision now adapter c req none db =
    after_phase_a now adapter c req (persist_phase_a fresh fresh_decision c req db)

abbrev pub with_adapter :
    ℕ → ℕ → ℕ → Option Adapter → Candidate → BookRequest → Db → Result Shipment × Db
with_adapter fresh fresh_decision now none c req db = (err plain, db)
with_adapter fresh fresh_decision now (some adapter) c req db =
    let (r, t) =
      on_orders (pikship.Orders.Service.mark_allocating now req.seller_id req.order_id) db in
    after_allocating fresh fresh_decision now adapter c req (blocks r) t

-- `Book`, for the candidate that the decision recommends.
abbrev pub with_candidate :
    (String → Option Adapter)
    → ℕ
    → ℕ
    → ℕ
    → Option Candidate
    → BookRequest
    → Db
    → Result Shipment × Db
with_candidate registry fresh fresh_decision now none req db = (err plain, db)
with_candidate registry fresh fresh_decision now (some c) req db =
    with_adapter fresh fresh_decision now (registry c.carrier) c req db

unfoldable pub book_shipment :
    (String → Option Adapter) → ℕ → ℕ → ℕ → BookRequest → Db → Result Shipment × Db
book_shipment registry fresh fresh_decision now req db =
    with_candidate registry fresh fresh_decision now (candidate_at req.recommended req.candidates)
      req db

-- `stampCol` names a column for two of the states.
abbrev pub transition_body : ℕ → ℕ → ℕ → ShipmentState → ShipmentState → String → Tx Db (Unit {0})
transition_body now seller id from to reason = do
  s ← get_shipment seller id
  fail_if (not (shipment_state_eq s.state from)) invalid_argument
  set_shipment seller id (stamped now to)
  insert_event (state_event seller id from to reason)

unfoldable pub transition :
    ℕ → ℕ → ℕ → ShipmentState → ShipmentState → String → Db → Result (Unit {0}) × Db
transition now seller id from to reason =
    with_seller_tx seller (transition_body now seller id from to reason)

abbrev pub cancel_body : ℕ → ℕ → ℕ → String → Tx Db (Unit {0})
cancel_body now seller id reason = do
  s ← get_shipment seller id
  set_shipment seller id (marked_cancelled now reason)
  insert_event (state_event seller id s.state cancelled reason)

abbrev pub after_lookup : ℕ → ℕ → ℕ → String → Result Shipment × Db → Result (Unit {0}) × Db
after_lookup now seller id reason (err e, db) = (err e, db)
after_lookup now seller id reason (ok _, db) =
    with_seller_tx seller (cancel_body now seller id reason) db

-- `Cancel`: the carrier is told first, and its answer is only logged.
unfoldable pub cancel_shipment : ℕ → ℕ → ℕ → String → Db → Result (Unit {0}) × Db
cancel_shipment now seller id reason db = after_lookup now seller id reason (get seller id db)

-- `fanoutOrderTransition`: the order's move, whose error is logged.
abbrev pub fan_out :
    (ℕ → ℕ → ℕ → pikship.Orders.Rows.Db → Result (Unit {0}) × pikship.Orders.Rows.Db)
    → ℕ
    → ℕ
    → Result Shipment
    → Db
    → Db
fan_out mark now seller (err e) db = db
fan_out mark now seller (ok s) db = (on_orders (mark now seller s.order_id) db).1

abbrev pub mirrored :
    (ℕ → ℕ → ℕ → pikship.Orders.Rows.Db → Result (Unit {0}) × pikship.Orders.Rows.Db)
    → ℕ
    → ℕ
    → ℕ
    → Result (Unit {0}) × Db
    → Result (Unit {0}) × Db
mirrored mark now seller id (err e, db) = (err e, db)
mirrored mark now seller id (ok _, db) = (ok tt, fan_out mark now seller (get seller id db).0 db)

unfoldable pub mark_in_transit : ℕ → ℕ → ℕ → Db → Result (Unit {0}) × Db
mark_in_transit now seller id db =
    mirrored pikship.Orders.Service.mark_in_transit now seller id
      (transition now seller id booked in_transit "in_transit" db)

unfoldable pub mark_delivered : ℕ → ℕ → ℕ → Db → Result (Unit {0}) × Db
mark_delivered now seller id db =
    mirrored pikship.Orders.Service.mark_delivered now seller id
      (transition now seller id in_transit delivered "delivered" db)

abbrev pub rto_body : ℕ → ℕ → String → Tx Db (Unit {0})
rto_body seller id reason = do
  s ← get_shipment seller id
  fail_if (not (shipment_state_eq s.state in_transit) && not (shipment_state_eq s.state booked))
      invalid_argument
  set_shipment seller id (with_state rto_in_progress)
  insert_event (state_event seller id s.state rto_in_progress reason)

unfoldable pub mark_rto : ℕ → ℕ → String → Db → Result (Unit {0}) × Db
mark_rto seller id reason = with_seller_tx seller (rto_body seller id reason)

unfoldable pub complete_rto : ℕ → ℕ → ℕ → Db → Result (Unit {0}) × Db
complete_rto now seller id = transition now seller id rto_in_progress rto_completed "rto_completed"
