-- ===== src/Shipments/Calls.antt =====
-- Calls of the shipment service (backend/internal/shipments/service_impl.go), each as a run of
-- allowed moves.
use pikship.Prelude.{
  ℕ, ◌≡◌, refl, sym, ◌∙◌, ap, inl, inr, String, false, Option, none, some, ==-self,
}
use mathlib.Core.Path.{subst}
use pikship.Prelude.Table.{any}
use pikship.Prelude.Tx.{Error, Result, is_ok, ok, err}
use pikship.Shipments.Rows.{
  booked, in_transit, delivered, rto_in_progress, rto_completed, Db, Candidate, BookRequest,
  Adapter,
}
use pikship.Shipments.Store.{new_shipment, get}
use pikship.Shipments.Service.{
  decision, candidate_at, persist_phase_a, on_orders, after_phase_a, blocks, after_allocating,
  with_adapter, with_candidate, book_shipment, cancel_shipment, mark_in_transit, mark_delivered,
  mark_rto, complete_rto, after_lookup, transition,
}
use pikship.Shipments.Moves.{event_of_id, Moves, Run, stop, step, added}
use pikship.Shipments.Phases.{phase_a_cases}
use pikship.Shipments.Steps.{
  still, on_orders-Run, IsPending, NamesWaybill, reply-Run, transition-Run, mirrored-Run,
  looked_up-Run, rto-Run, get_same,
}
use pikship.Orders.Rows
use pikship.Orders.Service

-- No event is about the id that `uuid.New` gave.
abbrev pub IsUnused : ℕ → Db → Type 0
IsUnused fresh db = any (event_of_id fresh) db.events ≡ false

-- Each carrier that takes a booking names a waybill.
abbrev pub NamesWaybills : Adapter → Type 0
NamesWaybills a = (id : ℕ) (c : Candidate) (req : BookRequest) → NamesWaybill (a.book id c req)

abbrev pub NamesWaybillsAll : (String → Option Adapter) → Type 0
NamesWaybillsAll registry = (code : String) (a : Adapter) → registry code ≡ some a → NamesWaybills a

phase_a-Run :
    {r : Db} (fresh fresh_decision now : ℕ) (adapter : Adapter) (c : Candidate) (req : BookRequest)
    (db : Db)
    → NamesWaybills adapter
    → IsUnused fresh db
    → Run r db
    → Run r (after_phase_a now adapter c req (persist_phase_a fresh fresh_decision c req db)).1
phase_a-Run {r = r} fresh fresh_decision now adapter c req db named unused run =
    elim (phase_a_cases fresh fresh_decision c req db) [
      | inl (e, failed) ↦
          refused_a (persist_phase_a fresh fresh_decision c req db) failed (still e run)
      | inr (o, e) ↦
          let t : Db =
            added (new_shipment fresh fresh_decision c req) (decision fresh_decision req) db in
          let whole : persist_phase_a fresh fresh_decision c req db ≡ (ok fresh, t) =
            ap (λ x. (x, (persist_phase_a fresh fresh_decision c req db).1)) o
            ∙ ap (λ x. (ok fresh, x)) e in
          let pending : IsPending req.seller_id fresh t = (
            new_shipment fresh fresh_decision c req,
            rw (==-self fresh, ==-self req.seller_id) refl,
            refl,
          ) in
          subst (λ x. Run r (after_phase_a now adapter c req x).1) (sym whole)
            (reply-Run now fresh c req (adapter.book fresh c req) t (named fresh c req) pending (
              step run (
                Moves.opened (new_shipment fresh fresh_decision c req) (decision fresh_decision req)
                  refl unused)))
    ]
  where
    refused_a :
        {r : Db} (o : Result ℕ × Db)
        → is_ok o.0 ≡ false
        → Run r o.1
        → Run r (after_phase_a now adapter c req o).1
    refused_a (err e, t) h run = run
    refused_a (ok x, t) h run = cc

allocating-Run :
    {r : Db} (fresh fresh_decision now : ℕ) (adapter : Adapter) (c : Candidate) (req : BookRequest)
    (blocked : Option Error) (db : Db)
    → NamesWaybills adapter
    → IsUnused fresh db
    → Run r db
    → Run r (after_allocating fresh fresh_decision now adapter c req blocked db).1
allocating-Run fresh fresh_decision now adapter c req (some e) db named unused run = run
allocating-Run fresh fresh_decision now adapter c req none db named unused run =
    phase_a-Run fresh fresh_decision now adapter c req db named unused run

adapter-Run :
    (fresh fresh_decision now : ℕ) (adapter : Option Adapter) (c : Candidate) (req : BookRequest)
    (db : Db)
    → ((a : Adapter) → adapter ≡ some a → NamesWaybills a)
    → IsUnused fresh db
    → Run db (with_adapter fresh fresh_decision now adapter c req db).1
adapter-Run fresh fresh_decision now none c req db named unused = stop
adapter-Run fresh fresh_decision now (some adapter) c req db named unused =
    let call : pikship.Orders.Rows.Db → Result (Unit {0}) × pikship.Orders.Rows.Db =
      pikship.Orders.Service.mark_allocating now req.seller_id req.order_id in
    allocating-Run fresh fresh_decision now adapter c req (blocks (on_orders call db).0)
      (on_orders call db).1 (named adapter refl) unused (on_orders-Run call db stop)

candidate-Run :
    (registry : String → Option Adapter) (fresh fresh_decision now : ℕ) (c : Option Candidate)
    (req : BookRequest) (db : Db)
    → NamesWaybillsAll registry
    → IsUnused fresh db
    → Run db (with_candidate registry fresh fresh_decision now c req db).1
candidate-Run registry fresh fresh_decision now none req db named unused = stop
candidate-Run registry fresh fresh_decision now (some c) req db named unused =
    adapter-Run fresh fresh_decision now (registry c.carrier) c req db (named c.carrier) unused

-- A call of the service, with the ids and the time that it draws.
pub data Call : Type 0 where
  books : ℕ → ℕ → ℕ → BookRequest → Call
  cancels : ℕ → ℕ → ℕ → String → Call
  ships delivers completes : ℕ → ℕ → ℕ → Call
  returns : ℕ → ℕ → String → Call
  -- Whatever is done to the order tables alone, by the order service too.
  orders : (pikship.Orders.Rows.Db → Result (Unit {0}) × pikship.Orders.Rows.Db) → Call

abbrev pub IsFreshCall : Call → Db → Type 0
IsFreshCall (Call.books fresh fresh_decision now req) db = IsUnused fresh db
IsFreshCall _ db = Unit {0}

module _ (registry : String → Option Adapter) where
  -- The tables after a call.
  unfoldable pub after : Call → Db → Db
  after (Call.books fresh fresh_decision now req) db =
      (book_shipment registry fresh fresh_decision now req db).1
  after (Call.cancels now seller id reason) db = (cancel_shipment now seller id reason db).1
  after (Call.ships now seller id) db = (mark_in_transit now seller id db).1
  after (Call.delivers now seller id) db = (mark_delivered now seller id db).1
  after (Call.completes now seller id) db = (complete_rto now seller id db).1
  after (Call.returns seller id reason) db = (mark_rto seller id reason db).1
  after (Call.orders call) db = (on_orders call db).1

  -- Each call of the shipment service is a run of the step relation: changes of the order tables,
  -- the opening of a pending shipment, and allowed moves of one shipment, each with its event. A
  -- booking draws an id that no event names, and a carrier that takes one names a waybill.
  pub after-Run :
      (call : Call) (db : Db)
      → NamesWaybillsAll registry
      → IsFreshCall call db
      → Run db (after call db)
  unfolding after book_shipment cancel_shipment mark_in_transit mark_delivered complete_rto
  after-Run (Call.books fresh fresh_decision now req) db named unused =
      candidate-Run registry fresh fresh_decision now (candidate_at req.recommended req.candidates)
        req db named unused
  after-Run (Call.cancels now seller id reason) db named unused =
      subst (λ x. Run x (after_lookup now seller id reason (get seller id db)).1)
        (get_same seller id db) (looked_up-Run now seller id reason (get seller id db))
  after-Run (Call.ships now seller id) db named unused =
      mirrored-Run pikship.Orders.Service.mark_in_transit now seller id
        (transition now seller id booked in_transit "in_transit" db)
        (transition-Run now seller id booked in_transit "in_transit" db refl (inl refl) stop)
  after-Run (Call.delivers now seller id) db named unused =
      mirrored-Run pikship.Orders.Service.mark_delivered now seller id
        (transition now seller id in_transit delivered "delivered" db)
        (transition-Run now seller id in_transit delivered "delivered" db refl (inr (inl refl))
          stop)
  after-Run (Call.completes now seller id) db named unused =
      transition-Run now seller id rto_in_progress rto_completed "rto_completed" db refl
        (inr (inr refl)) stop
  after-Run (Call.returns seller id reason) db named unused = rto-Run seller id reason db
  after-Run (Call.orders call) db named unused = on_orders-Run call db stop
