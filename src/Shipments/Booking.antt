-- ===== src/Shipments/Booking.antt =====
-- `Book`, `Cancel` and the mirroring of a shipment's state in its order
-- (backend/internal/shipments/service_impl.go).
use pikship.Prelude.{
  ℕ, ◌≡◌, refl, ◌∙◌, ap, inl, inr, String, true, false, Option, none, some, arith, ◌==◌, Bool-cases,
}
use pikship.Prelude.Table.{select, update, any, select-update, any-update, select→any, select-holds}
use pikship.Prelude.Tx.{Error, Result, is_ok, ok, err, database}
use pikship.Shipments.Rows.{
  booked, in_transit, cancelled, Shipment, Db, Candidate, BookRequest, Adapter,
}
use pikship.Shipments.Store.{
  is_shipment, set_shipment, marked_cancelled, stamped, insert_event, get_shipment, get, decides,
}
use pikship.Shipments.Service.{
  candidate_at, persist_phase_a, on_orders, blocks, after_allocating, with_adapter, with_candidate,
  book_shipment, cancel_shipment, mirrored, mark_in_transit, transition,
}
use pikship.Shipments.Moves.{stepped, transition_found}
use pikship.Shipments.Phases.{phase_a_blocked, phase_a_run}
use pikship.Orders.Rows
use pikship.Orders.Service

-- Nothing happened to the shipments and their decisions, and the call failed.
abbrev pub IsRefused : Db → Result Shipment × Db → Type 0
IsRefused db o =
    (is_ok o.0 ≡ false) × (o.1.shipments ≡ db.shipments) × (o.1.decisions ≡ db.decisions)

again_allocating :
    (fresh fresh_decision now : ℕ) (adapter : Adapter) (c : Candidate) (req : BookRequest)
    (blocked : Option Error) (db t : Db)
    → any (decides req.order_id) t.decisions ≡ true
    → t.shipments ≡ db.shipments
    → t.decisions ≡ db.decisions
    → IsRefused db (after_allocating fresh fresh_decision now adapter c req blocked t)
unfolding persist_phase_a
again_allocating fresh fresh_decision now adapter c req (some e) db t there a b = (refl, a, b)
again_allocating fresh fresh_decision now adapter c req none db t there a b =
    elim (Bool-cases (req.seller_id == 0)) [
      | inl zero ↦ rw zero (refl, a, b)
      | inr scoped ↦
          let stops : phase_a_blocked fresh fresh_decision req t ≡ true = ground (arith, there) in
          let run : persist_phase_a fresh fresh_decision c req t ≡ (err database, t) =
            phase_a_run fresh fresh_decision c req t scoped ∙ rw stops refl in
          rw run (refl, a, b)
    ]

again_adapter :
    (fresh fresh_decision now : ℕ) (adapter : Option Adapter) (c : Candidate) (req : BookRequest)
    (db : Db)
    → any (decides req.order_id) db.decisions ≡ true
    → IsRefused db (with_adapter fresh fresh_decision now adapter c req db)
again_adapter fresh fresh_decision now none c req db there = (refl, refl, refl)
again_adapter fresh fresh_decision now (some adapter) c req db there =
    let o = on_orders (pikship.Orders.Service.mark_allocating now req.seller_id req.order_id) db in
    again_allocating fresh fresh_decision now adapter c req (blocks o.0) db o.1 there refl refl

again_candidate :
    (registry : String → Option Adapter) (fresh fresh_decision now : ℕ) (c : Option Candidate)
    (req : BookRequest) (db : Db)
    → any (decides req.order_id) db.decisions ≡ true
    → IsRefused db (with_candidate registry fresh fresh_decision now c req db)
again_candidate registry fresh fresh_decision now none req db there = (refl, refl, refl)
again_candidate registry fresh fresh_decision now (some c) req db there =
    again_adapter fresh fresh_decision now (registry c.carrier) c req db there

-- Book of an order that has an allocation decision fails, whatever became of the first booking,
-- and leaves the shipments and the decisions as they are.
pub book_once :
    (registry : String → Option Adapter) (fresh fresh_decision now : ℕ) (req : BookRequest)
    (db : Db)
    → any (decides req.order_id) db.decisions ≡ true
    → IsRefused db (book_shipment registry fresh fresh_decision now req db)
unfolding book_shipment
book_once registry fresh fresh_decision now req db there =
    again_candidate registry fresh fresh_decision now (candidate_at req.recommended req.candidates)
      req db there

-- The shipment is still there after a change that keeps its id.
still_there :
    (seller id : ℕ) (f : Shipment → Shipment) (s : Shipment) (db : Db)
    → ((x : Shipment) → (f x).id ≡ x.id)
    → select (is_shipment seller id) db.shipments ≡ some s
    → any (λ (x : Shipment). x.id == id) (update (is_shipment seller id) f db.shipments) ≡ true
still_there seller id f s db keep found =
    any-update (is_shipment seller id) (λ x. x.id == id) f (λ x. rw (keep x) refl) db.shipments
    ∙ select→any (λ (x : Shipment). x.id == id) (is_shipment seller id) (λ x h. ground arith) s
        db.shipments found

-- Under a seller's scope, Cancel of a shipment that is found succeeds in whatever state the
-- shipment is, delivered ones included: the shipment is cancelled, with an event from the state
-- that it had.
pub cancel_any_state :
    (now seller id : ℕ) (reason : String) (s : Shipment) (db : Db)
    → (seller == 0) ≡ false
    → select (is_shipment seller id) db.shipments ≡ some s
    → cancel_shipment now seller id reason db
      ≡ (ok tt, stepped seller id (marked_cancelled now reason) s.state cancelled reason db)
unfolding cancel_shipment get get_shipment set_shipment insert_event
cancel_any_state now seller id reason s db scoped found =
    ground (arith, still_there seller id (marked_cancelled now reason) s db (λ x. refl) found)

not_mirrored :
    (mark : ℕ → ℕ → ℕ → pikship.Orders.Rows.Db → Result (Unit {0}) × pikship.Orders.Rows.Db)
    (now seller id : ℕ) (o : Result (Unit {0}) × Db)
    → is_ok o.0 ≡ false
    → is_ok (mirrored mark now seller id o).0 ≡ false
not_mirrored mark now seller id (err e, db) failed = refl
not_mirrored mark now seller id (ok x, db) failed = failed

-- A MarkInTransit of a shipment that succeeds, under a seller's scope, stamps the shipment and
-- does to the orders what MarkInTransit of its order does, no more and no less.
pub shipped_mirrors :
    (now seller id : ℕ) (s : Shipment) (db : Db)
    → (seller == 0) ≡ false
    → select (is_shipment seller id) db.shipments ≡ some s
    → (mark_in_transit now seller id db).0 ≡ ok tt
    → ((mark_in_transit now seller id db).1.order_db
        ≡ (pikship.Orders.Service.mark_in_transit now seller s.order_id db.order_db).1)
      × (select (is_shipment seller id) (mark_in_transit now seller id db).1.shipments
          ≡ some (stamped now in_transit s))
unfolding mark_in_transit get get_shipment
shipped_mirrors now seller id s db scoped found done =
    let o = transition now seller id booked in_transit "in_transit" db in
    elim (transition_found now seller id booked in_transit "in_transit" s db found) [
      | inl (e, failed) ↦
          let no : is_ok (mirrored pikship.Orders.Service.mark_in_transit now seller id o).0
              ≡ false =
            not_mirrored pikship.Orders.Service.mark_in_transit now seller id o failed in
          absurd (ground (arith, no, done))
      | inr (r, here, e) ↦
          let t : Db =
            stepped seller id (stamped now in_transit) booked in_transit "in_transit" db in
          let whole : o ≡ (ok tt, t) = ap (λ x. (x, o.1)) r ∙ ap (λ x. (ok tt, x)) e in
          let moved : select (is_shipment seller id) t.shipments ≡ some (stamped now in_transit s) =
            select-update (is_shipment seller id) (is_shipment seller id) (stamped now in_transit)
              (λ x. refl) db.shipments
            ∙ rw found
                (ground (arith, select-holds (is_shipment seller id) s db.shipments found)) in
          rw whole (rw (scoped, moved) (refl, moved))
    ]
