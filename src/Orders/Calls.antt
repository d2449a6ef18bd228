-- ===== src/Orders/Calls.antt =====
-- Calls of the order service, each with the time and the id that it draws: every call is a move of
-- the state machine.
use pikship.Prelude.{ℕ, ◌≡◌, refl, sym, inl, inr, String, Bool, List, [], ◌∷◌, arith, Option-cases}
use mathlib.Core.Path.{subst}
use pikship.Prelude.Table.{select, update}
use pikship.Prelude.Tx.{with_seller_tx}
use pikship.Orders.State.{
  OrderState, draft, ready, allocating, booked, in_transit, delivered, closed, cancelled, rto,
  state_eq→≡,
}
use pikship.Orders.Rows.{CreateRequest, Db, BookedRef, MarkPaidRef}
use pikship.Orders.Repo.{is_order, stamped, book, cancel}
use pikship.Orders.Service.{
  to_body, create, transition_under, mark_ready, mark_allocating, mark_in_transit, mark_delivered,
  cancel_order, mark_booked, mark_rto, close_order, mark_paid, pay,
}
use pikship.Orders.Moves.{
  IsUnused, Moves, stepped, stepped-Moves, transition_found, transition_missing, to_found,
  to_missing, cancel_found, cancel_missing, booked_found, booked_missing, paid_found, paid_missing,
  create_found,
}

pub data Call : Type 0 where
  creates : ℕ → ℕ → CreateRequest → Call
  readies allocates ships delivers closes : ℕ → ℕ → ℕ → Call
  cancels returns : ℕ → ℕ → ℕ → String → Call
  books : ℕ → ℕ → ℕ → BookedRef → Call
  pays : ℕ → ℕ → ℕ → MarkPaidRef → Call

-- The tables after a call.
unfoldable pub after : Call → Db → Db
after (Call.creates fresh now req) db = (create fresh now req db).1
after (Call.readies now seller id) db = (mark_ready now seller id db).1
after (Call.allocates now seller id) db = (mark_allocating now seller id db).1
after (Call.ships now seller id) db = (mark_in_transit now seller id db).1
after (Call.delivers now seller id) db = (mark_delivered now seller id db).1
after (Call.closes now seller id) db = (close_order now seller id db).1
after (Call.cancels now seller id reason) db = (cancel_order now seller id reason db).1
after (Call.returns now seller id reason) db = (mark_rto now seller id reason db).1
after (Call.books now seller id ref) db = (mark_booked now seller id ref db).1
after (Call.pays now seller id ref) db = (mark_paid now seller id ref db).1

-- The id that `Create` draws is in no table.
abbrev pub IsFreshCall : Call → Db → Type 0
IsFreshCall (Call.creates fresh now req) db = IsUnused fresh db
IsFreshCall _ db = Unit {0}

still : {db t : Db} → t ≡ db → Moves db t
still {db = db} e = subst (Moves db) (sym e) Moves.same

transition-Moves :
    (now seller id : ℕ) (from to : OrderState) (reason : String) (db : Db)
    → Moves db (transition_under now seller id from to reason db).1
transition-Moves now seller id from to reason db =
    elim (Option-cases (select (is_order seller id) db.orders)) [
      | inl gone ↦ still (transition_missing now seller id from to reason db gone)
      | inr (o, found) ↦ elim (transition_found now seller id from to reason o db found) [
        | inl (e, _) ↦ still e
        | inr (_, here, allowed, e) ↦
            let at : o.state ≡ from = state_eq→≡ o.state from here in
            let step : Moves db (stepped now seller id o.state to reason db) =
              stepped-Moves now seller id o to reason db found (rw at allowed) in
            subst (Moves db) (sym e)
              (subst (λ s. Moves db (stepped now seller id s to reason db)) at step)
      ]
    ]

cancel-Moves :
    (now seller id : ℕ) (reason : String) (db : Db)
    → Moves db (cancel_order now seller id reason db).1
cancel-Moves now seller id reason db = elim (Option-cases (select (is_order seller id) db.orders)) [
  | inl gone ↦ still (cancel_missing now seller id reason db gone)
  | inr (o, found) ↦ elim (cancel_found now seller id reason o db found) [
    | inl (e, _) ↦ still e
    | inr (_, allowed, e) ↦ subst (Moves db) (sym e) (
        Moves.moved seller id o (cancel now reason) cancelled reason found allowed
          (record { id = λ x. refl; seller_id = λ x. refl }) (λ x. refl))
  ]
]

-- Two updates of the same rows are one.
pub update-update :
    {A : Type 0} (p : A → Bool) (f g : A → A)
    → ((x : A) → p (f x) ≡ p x)
    → (xs : List A) → update p g (update p f xs) ≡ update p (λ x. g (f x)) xs
update-update p f g keep [] = refl
update-update p f g keep (x ∷ xs) = ground (arith, keep x, update-update p f g keep xs)

booked-Moves :
    (now seller id : ℕ) (ref : BookedRef) (db : Db) → Moves db (mark_booked now seller id ref db).1
booked-Moves now seller id ref db = elim (Option-cases (select (is_order seller id) db.orders)) [
  | inl gone ↦ still (booked_missing now seller id ref db gone)
  | inr (o, found) ↦ elim (booked_found now seller id ref o db found) [
    | inl (e, _) ↦ still e
    | inr (_, allowed, e) ↦
        let once : update (is_order seller id) (book now ref)
              (update (is_order seller id) (stamped now booked) db.orders)
            ≡ update (is_order seller id) (λ x. book now ref (stamped now booked x)) db.orders =
          update-update (is_order seller id) (stamped now booked) (book now ref) (λ x. refl)
            db.orders in
        subst (Moves db) (sym e) (
          rw once (
            Moves.moved seller id o (λ x. book now ref (stamped now booked x)) booked "booked" found
              allowed (record { id = λ x. refl; seller_id = λ x. refl }) (λ x. refl)))
  ]
]

paid-Moves :
    (now seller id : ℕ) (ref : MarkPaidRef) (db : Db) → Moves db (mark_paid now seller id ref db).1
paid-Moves now seller id ref db = elim (Option-cases (select (is_order seller id) db.orders)) [
  | inl gone ↦ still (paid_missing now seller id ref db gone)
  | inr (o, found) ↦ elim (paid_found now seller id ref o db found) [
    | inl e ↦ still e
    | inr e ↦ subst (Moves db) (sym e) (
        Moves.touched seller id (pay now ref) (record { id = λ x. refl; seller_id = λ x. refl })
          (λ x. refl))
  ]
]

to-Moves :
    (now seller id : ℕ) (to : OrderState) (reason : String) (db : Db)
    → Moves db (with_seller_tx seller (to_body now seller id to reason) db).1
to-Moves now seller id to reason db = elim (Option-cases (select (is_order seller id) db.orders)) [
  | inl gone ↦ still (to_missing now seller id to reason db gone)
  | inr (o, found) ↦ elim (to_found now seller id to reason o db found) [
    | inl (e, _) ↦ still e
    | inr (_, allowed, e) ↦
        subst (Moves db) (sym e) (stepped-Moves now seller id o to reason db found allowed)
  ]
]

create-Moves :
    (fresh now : ℕ) (req : CreateRequest) (db : Db)
    → IsUnused fresh db
    → Moves db (create fresh now req db).1
create-Moves fresh now req db unused = elim (create_found fresh now req db) [
  | inl e ↦ still e
  | inr e ↦ subst (Moves db) (sym e) (Moves.created fresh now req unused)
]

-- Each call of the order service that draws an unused id does to the tables nothing, one move
-- that the state machine allows together with its event, a change that leaves the order's state
-- and keys, or the insert of a new draft.
pub after-Moves : (call : Call) (db : Db) → IsFreshCall call db → Moves db (after call db)
unfolding after mark_ready mark_allocating mark_in_transit mark_delivered mark_rto close_order
after-Moves (Call.creates fresh now req) db u = create-Moves fresh now req db u
after-Moves (Call.readies now seller id) db u =
    transition-Moves now seller id draft ready "marked_ready" db
after-Moves (Call.allocates now seller id) db u =
    transition-Moves now seller id ready allocating "allocation_started" db
after-Moves (Call.ships now seller id) db u =
    transition-Moves now seller id booked in_transit "in_transit" db
after-Moves (Call.delivers now seller id) db u =
    transition-Moves now seller id in_transit delivered "delivered" db
after-Moves (Call.closes now seller id) db u = to-Moves now seller id closed "closed" db
after-Moves (Call.cancels now seller id reason) db u = cancel-Moves now seller id reason db
after-Moves (Call.returns now seller id reason) db u = to-Moves now seller id rto reason db
after-Moves (Call.books now seller id ref) db u = booked-Moves now seller id ref db
after-Moves (Call.pays now seller id ref) db u = paid-Moves now seller id ref db
