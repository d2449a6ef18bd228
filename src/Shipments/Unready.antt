-- ===== src/Shipments/Unready.antt =====
-- `Book` (backend/internal/shipments/service_impl.go) of an order that is not ready for it.
use pikship.Prelude.{ℕ, ◌≡◌, refl, ◌∙◌, String, false, Option, some, arith, ◌==◌, ==-self}
use pikship.Prelude.Table.{select, update, any}
use pikship.Prelude.Tx.{ok, Tx, ◌>>◌, >>-ok, with_seller_tx-runs}
use pikship.Shipments.Rows.{pending_carrier, booked, Db, Candidate, BookRequest, Adapter, accepted}
use pikship.Shipments.Store.{
  is_shipment, new_shipment, set_shipment, confirmed, awb_taken, state_event, insert_event,
  get_shipment, get,
}
use pikship.Shipments.Service.{
  decision, candidate_at, persist_phase_a, confirm_row, confirm_phase_b, book_shipment,
}
use pikship.Shipments.Moves.{stepped, added}
use pikship.Shipments.Phases.{awb_clash, phase_a_blocked, phase_a_run}
use pikship.Orders.State.{ready, allocating, state_eq}
use pikship.Orders.Repo.{is_order}
use pikship.Orders.Rows
use pikship.Orders.Service
use pikship.Orders.Final.{transition_refused, booked_refused}

-- The tables after a booking that the carrier accepted, the order left out.
abbrev pub shipped : ℕ → ℕ → ℕ → Candidate → BookRequest → String → String → Db → Db
shipped fresh fresh_decision now c req awb ref db =
    stepped req.seller_id fresh (confirmed now awb ref) pending_carrier booked "carrier confirmed"
      (added (new_shipment fresh fresh_decision c req) (decision fresh_decision req) db)

confirm_new :
    (fresh fresh_decision now : ℕ) (c : Candidate) (req : BookRequest) (awb ref : String) (db : Db)
    → (req.seller_id == 0) ≡ false
    → any (awb_taken fresh awb) db.shipments ≡ false
    → confirm_phase_b now req.seller_id fresh awb ref
        (added (new_shipment fresh fresh_decision c req) (decision fresh_decision req) db)
      ≡ (ok tt, shipped fresh fresh_decision now c req awb ref db)
unfolding confirm_phase_b confirm_row set_shipment insert_event
confirm_new fresh fresh_decision now c req awb ref db scoped free =
    let t : Db = added (new_shipment fresh fresh_decision c req) (decision fresh_decision req) db in
    let u : Db = record t {
      shipments = update (is_shipment req.seller_id fresh) (confirmed now awb ref) t.shipments;
    } in
    let row : Tx Db (Unit {0}) = confirm_row now req.seller_id fresh awb ref in
    let logs : Tx Db (Unit {0}) =
      insert_event (state_event req.seller_id fresh pending_carrier booked "carrier confirmed") in
    let clear : awb_clash req.seller_id fresh awb t ≡ false = ground (arith, free) in
    let writes : row t ≡ ok (tt, u) = rw clear refl in
    let there : logs u ≡ ok (tt, shipped fresh fresh_decision now c req awb ref db) =
      rw (==-self fresh, ==-self req.seller_id) (rw (==-self fresh) refl) in
    with_seller_tx-runs req.seller_id (row >> logs) t
      (ok (tt, shipped fresh fresh_decision now c req awb ref db)) scoped
      (>>-ok row logs t u tt writes ∙ there)

-- Book of an order that is found but neither ready nor allocating succeeds, for a carrier that
-- accepts with a waybill that no shipment has and where no decision or shipment stands in the
-- way: it answers with a booked shipment, and the order's tables stay as they are.
pub book_unready :
    (registry : String → Option Adapter) (fresh fresh_decision now : ℕ) (adapter : Adapter)
    (c : Candidate) (req : BookRequest) (o : pikship.Orders.Rows.Order) (awb ref : String) (db : Db)
    → (req.seller_id == 0) ≡ false
    → candidate_at req.recommended req.candidates ≡ some c
    → registry c.carrier ≡ some adapter
    → select (is_order req.seller_id req.order_id) db.order_db.orders ≡ some o
    → state_eq o.state ready ≡ false
    → state_eq o.state allocating ≡ false
    → phase_a_blocked fresh fresh_decision req db ≡ false
    → adapter.book fresh c req ≡ accepted awb ref
    → any (awb_taken fresh awb) db.shipments ≡ false
    → book_shipment registry fresh fresh_decision now req db ≡ (
      ok (confirmed now awb ref (new_shipment fresh fresh_decision c req)),
      shipped fresh fresh_decision now c req awb ref db,
    )
unfolding book_shipment pikship.Orders.Service.mark_allocating get get_shipment
book_unready registry fresh fresh_decision now adapter c req o awb ref db scoped chosen carried
      found not_ready not_allocating free answered unique =
    let t : Db = added (new_shipment fresh fresh_decision c req) (decision fresh_decision req) db in
    let refused =
      transition_refused now req.seller_id req.order_id ready allocating "allocation_started" o
        db.order_db scoped found not_ready in
    let phase_a : persist_phase_a fresh fresh_decision c req db ≡ (ok fresh, t) =
      phase_a_run fresh fresh_decision c req db scoped ∙ rw free refl in
    let phase_b = confirm_new fresh fresh_decision now c req awb ref db scoped unique in
    let unbooked =
      booked_refused now req.seller_id req.order_id
        (record { awb_number = awb; carrier_code = c.carrier }) o db.order_db scoped found not_ready
        not_allocating in
    rw (chosen, carried, refused, phase_a, answered, phase_b, unbooked, scoped)
      (rw (==-self fresh, ==-self req.seller_id) (rw (==-self fresh, ==-self req.seller_id) refl))
