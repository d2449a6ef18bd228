-- ===== src/Orders/Moves.antt =====
-- The moves of an order that the state machine of backend/internal/orders allows, as a step
-- relation on the tables, and what each operation of service_impl.go does to the tables.
use pikship.Prelude.{
  ℕ, ◌≡◌, refl, ◌⊎◌, inl, inr, String, Bool, true, false, none, some, ◌∷◌, arith, ◌==◌, ==-self,
  Bool-cases,
}
use pikship.Prelude.Table.{select, update, any}
use pikship.Prelude.Tx.{is_ok, ok, with_seller_tx}
use pikship.Orders.State.{
  OrderState, draft, ready, allocating, booked, in_transit, delivered, closed, cancelled, rto,
  state_eq, can_transition,
}
use pikship.Orders.Rows.{CreateRequest, Order, StateEvent, Db, BookedRef, MarkPaidRef}
use pikship.Orders.Repo.{
  is_order, new_order, stamped, state_event, book, cancel, get_order, insert_order, set_state,
  insert_state_event, transition_state, book_order_row, cancel_order_row,
}
use pikship.Orders.Service.{
  no_lines, create, lock_order, transition_under, cancel_order, mark_booked, to_body, mark_paid,
  pay,
}

-- No order and no event has the id.
abbrev pub event_of_id : ℕ → StateEvent → Bool
event_of_id id e = e.order_id == id

pub record IsUnused (id : ℕ) (db : Db) : Type 0 where
  pub no_order : any (λ (o : Order). o.id == id) db.orders ≡ false
  pub no_event : any (event_of_id id) db.events ≡ false

-- A change of an order that leaves its keys.
pub record KeepsKeys (f : Order → Order) : Type 0 where
  pub id : (o : Order) → (f o).id ≡ o.id
  pub seller_id : (o : Order) → (f o).seller_id ≡ o.seller_id

abbrev pub changed : ℕ → ℕ → (Order → Order) → Db → Db
changed seller id f db = record db { orders = update (is_order seller id) f db.orders }

-- Nothing; an allowed move of one order with its event; a change that leaves the state; a new draft.
pub data Moves (db : Db) : Db → Type 0 where
  same : Moves db db
  moved :
      (seller id : ℕ) (o : Order) (f : Order → Order) (to : OrderState) (reason : String)
      → select (is_order seller id) db.orders ≡ some o
      → can_transition o.state to ≡ true
      → KeepsKeys f
      → ((x : Order) → (f x).state ≡ to)
      → Moves db (record (changed seller id f db) {
        events = state_event seller id o.state to reason ∷ db.events;
      })
  touched :
      (seller id : ℕ) (f : Order → Order)
      → KeepsKeys f
      → ((x : Order) → (f x).state ≡ x.state)
      → Moves db (changed seller id f db)
  created :
      (fresh now : ℕ) (req : CreateRequest)
      → IsUnused fresh db
      → Moves db (record db { orders = new_order fresh now req ∷ db.orders })

stamped_keys :
    (now : ℕ) (to : OrderState) (o : Order)
    → ((stamped now to o).id ≡ o.id)
      × ((stamped now to o).seller_id ≡ o.seller_id)
      × ((stamped now to o).state ≡ to)
stamped_keys now draft o = (refl, refl, refl)
stamped_keys now ready o = (refl, refl, refl)
stamped_keys now allocating o = (refl, refl, refl)
stamped_keys now booked o = (refl, refl, refl)
stamped_keys now in_transit o = (refl, refl, refl)
stamped_keys now delivered o = (refl, refl, refl)
stamped_keys now closed o = (refl, refl, refl)
stamped_keys now cancelled o = (refl, refl, refl)
stamped_keys now rto o = (refl, refl, refl)

stamped-KeepsKeys : (now : ℕ) (to : OrderState) → KeepsKeys (stamped now to)
stamped-KeepsKeys now to = record {
  id = λ o. (stamped_keys now to o).0;
  seller_id = λ o. (stamped_keys now to o).1;
}

-- The tables after a move with the stamps of `setStateSQL`.
abbrev pub stepped : ℕ → ℕ → ℕ → OrderState → OrderState → String → Db → Db
stepped now seller id from to reason db = record (changed seller id (stamped now to) db) {
  events = state_event seller id from to reason ∷ db.events;
}

pub stepped-Moves :
    (now seller id : ℕ) (o : Order) (to : OrderState) (reason : String) (db : Db)
    → select (is_order seller id) db.orders ≡ some o
    → can_transition o.state to ≡ true
    → Moves db (stepped now seller id o.state to reason db)
stepped-Moves now seller id o to reason db found allowed =
    Moves.moved seller id o (stamped now to) to reason found allowed (stamped-KeepsKeys now to)
      (λ x. (stamped_keys now to x).2)

pub transition_found :
    (now seller id : ℕ) (from to : OrderState) (reason : String) (o : Order) (db : Db)
    → select (is_order seller id) db.orders ≡ some o
    → let (r, t) = transition_under now seller id from to reason db in
      ((t ≡ db) × (is_ok r ≡ false))
      ⊎ ((r ≡ ok tt)
          × (state_eq o.state from ≡ true)
          × (can_transition from to ≡ true)
          × (t ≡ stepped now seller id from to reason db))
unfolding transition_under lock_order transition_state set_state insert_state_event
transition_found now seller id from to reason o db found = ground arith

pub to_found :
    (now seller id : ℕ) (to : OrderState) (reason : String) (o : Order) (db : Db)
    → select (is_order seller id) db.orders ≡ some o
    → let (r, t) = with_seller_tx seller (to_body now seller id to reason) db in
      ((t ≡ db) × (is_ok r ≡ false))
      ⊎ ((r ≡ ok tt)
          × (can_transition o.state to ≡ true)
          × (t ≡ stepped now seller id o.state to reason db))
unfolding lock_order transition_state set_state insert_state_event
to_found now seller id to reason o db found = ground arith

-- Nothing is changed where the order is not found.
pub to_missing :
    (now seller id : ℕ) (to : OrderState) (reason : String) (db : Db)
    → select (is_order seller id) db.orders ≡ none
    → (with_seller_tx seller (to_body now seller id to reason) db).1 ≡ db
unfolding lock_order
to_missing now seller id to reason db gone = ground arith

pub transition_missing :
    (now seller id : ℕ) (from to : OrderState) (reason : String) (db : Db)
    → select (is_order seller id) db.orders ≡ none
    → (transition_under now seller id from to reason db).1 ≡ db
unfolding transition_under lock_order
transition_missing now seller id from to reason db gone = ground arith

abbrev pub cancelled_db : ℕ → ℕ → ℕ → OrderState → String → Db → Db
cancelled_db now seller id from reason db = record (changed seller id (cancel now reason) db) {
  events = state_event seller id from cancelled reason ∷ db.events;
}

pub cancel_found :
    (now seller id : ℕ) (reason : String) (o : Order) (db : Db)
    → select (is_order seller id) db.orders ≡ some o
    → let (r, t) = cancel_order now seller id reason db in
      ((t ≡ db) × (is_ok r ≡ false))
      ⊎ ((r ≡ ok tt)
          × (can_transition o.state cancelled ≡ true)
          × (t ≡ cancelled_db now seller id o.state reason db))
unfolding cancel_order lock_order cancel_order_row insert_state_event
cancel_found now seller id reason o db found = ground arith

pub cancel_missing :
    (now seller id : ℕ) (reason : String) (db : Db)
    → select (is_order seller id) db.orders ≡ none
    → (cancel_order now seller id reason db).1 ≡ db
unfolding cancel_order lock_order
cancel_missing now seller id reason db gone = ground arith

-- The row is written twice: by the transition and with the waybill.
abbrev pub booked_db : ℕ → ℕ → ℕ → BookedRef → OrderState → Db → Db
booked_db now seller id ref from db =
    changed seller id (book now ref) (stepped now seller id from booked "booked" db)

pub booked_found :
    (now seller id : ℕ) (ref : BookedRef) (o : Order) (db : Db)
    → select (is_order seller id) db.orders ≡ some o
    → let (r, t) = mark_booked now seller id ref db in
      ((t ≡ db) × (is_ok r ≡ false))
      ⊎ ((r ≡ ok tt)
          × (can_transition o.state booked ≡ true)
          × (t ≡ booked_db now seller id ref o.state db))
unfolding mark_booked lock_order transition_state set_state insert_state_event book_order_row
booked_found now seller id ref o db found = ground arith

pub booked_missing :
    (now seller id : ℕ) (ref : BookedRef) (db : Db)
    → select (is_order seller id) db.orders ≡ none
    → (mark_booked now seller id ref db).1 ≡ db
unfolding mark_booked lock_order
booked_missing now seller id ref db gone = ground arith

pub paid_found :
    (now seller id : ℕ) (ref : MarkPaidRef) (o : Order) (db : Db)
    → select (is_order seller id) db.orders ≡ some o
    → let (r, t) = mark_paid now seller id ref db in
      (t ≡ db) ⊎ (t ≡ changed seller id (pay now ref) db)
unfolding mark_paid lock_order
paid_found now seller id ref o db found = ground arith

pub paid_missing :
    (now seller id : ℕ) (ref : MarkPaidRef) (db : Db)
    → select (is_order seller id) db.orders ≡ none
    → (mark_paid now seller id ref db).1 ≡ db
unfolding mark_paid lock_order
paid_missing now seller id ref db gone = ground arith

pub create_found :
    (fresh now : ℕ) (req : CreateRequest) (db : Db)
    → let t = (create fresh now req db).1 in
      (t ≡ db) ⊎ (t ≡ record db { orders = new_order fresh now req ∷ db.orders })
unfolding create insert_order get_order
create_found fresh now req db = elim (Bool-cases (no_lines req.lines)) [
  | inl empty ↦ rw empty (inl refl)
  | inr lines ↦ rw lines (ground (arith, ==-self fresh, ==-self req.seller_id))
]
