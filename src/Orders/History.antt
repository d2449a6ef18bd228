-- ===== src/Orders/History.antt =====
-- The log of state changes (order_state_event) tells how each order came to its state.
use pikship.Prelude.{
  ℕ, ◌≡◌, refl, sym, ◌∙◌, inl, inr, String, Bool, true, false, ◌&&◌, some, List, [], ◌∷◌, arith,
  ◌==◌, ==-self, if◌then◌else◌, Bool-cases, Option-cases,
}
use mathlib.Core.Path.{subst}
use pikship.Prelude.Table.{select, any, select-update, map_some, apply_if, select-holds}
use pikship.Orders.State.{
  OrderState, draft, ready, allocating, booked, in_transit, delivered, closed, cancelled, rto,
  can_transition,
}
use pikship.Orders.Rows.{CreateRequest, Order, StateEvent, Db}
use pikship.Orders.Repo.{is_order, new_order, state_event}
use pikship.Orders.Moves.{event_of_id, IsUnused, KeepsKeys, changed, Moves}
use pikship.Orders.Calls.{Call, after, IsFreshCall, after-Moves}

abbrev pub is_event : ℕ → ℕ → StateEvent → Bool
is_event seller id e = e.order_id == id && e.seller_id == seller

-- The events of an order, the last one first.
abbrev pub events_of : ℕ → ℕ → List StateEvent → List StateEvent
events_of seller id [] = []
events_of seller id (e ∷ es) =
    if is_event seller id e then e ∷ events_of seller id es else events_of seller id es

-- The events lead from a draft to the state, each by an allowed transition.
abbrev pub Follows : OrderState → List StateEvent → Type 0
Follows st [] = st ≡ draft
Follows st (e ∷ es) = (e.to ≡ st) × (can_transition e.from e.to ≡ true) × Follows e.from es

abbrev pub IsLogged : Db → Type 0
IsLogged db =
    (seller id : ℕ) (o : Order)
    → select (is_order seller id) db.orders ≡ some o
    → Follows o.state (events_of seller id db.events)

no_events :
    (seller id : ℕ) (es : List StateEvent)
    → any (event_of_id id) es ≡ false
    → events_of seller id es ≡ []
no_events seller id [] h = refl
no_events seller id (e ∷ es) h = ground (arith, no_events seller id es)

pub is_order-keys :
    (s i : ℕ) (f : Order → Order) → KeepsKeys f → (x : Order) → is_order s i (f x) ≡ is_order s i x
is_order-keys s i f keeps x = rw (keeps.id x, keeps.seller_id x) refl

-- The row found after a change of the order `seller`, `id`.
found_before :
    (seller id s i : ℕ) (f : Order → Order) (o : Order) (db : Db)
    → KeepsKeys f
    → select (is_order s i) (changed seller id f db).orders ≡ some o
    → (x : Order) × (select (is_order s i) db.orders ≡ some x)
      × (o ≡ apply_if (is_order seller id) f x)
found_before seller id s i f o db keeps h =
    let e : select (is_order s i) (changed seller id f db).orders
        ≡ map_some (apply_if (is_order seller id) f) (select (is_order s i) db.orders) =
      select-update (is_order seller id) (is_order s i) f (is_order-keys s i f keeps) db.orders in
    elim (Option-cases (select (is_order s i) db.orders)) [
      | inl gone ↦ absurd (ground (arith, sym h ∙ e, gone))
      | inr (x, there) ↦ (x, there, ground (arith, sym h ∙ e, there))
    ]

-- An order's keys are what it was looked up by.
pub keys_of :
    (seller id : ℕ) (x : Order) (xs : List Order)
    → select (is_order seller id) xs ≡ some x
    → (x.id ≡ id) × (x.seller_id ≡ seller)
keys_of seller id x xs h =
    let hit : is_order seller id x ≡ true = select-holds (is_order seller id) x xs h in
    (ground arith, ground arith)

moved-IsLogged :
    (seller id : ℕ) (o : Order) (f : Order → Order) (to : OrderState) (reason : String) (db : Db)
    → select (is_order seller id) db.orders ≡ some o
    → can_transition o.state to ≡ true
    → KeepsKeys f
    → ((x : Order) → (f x).state ≡ to)
    → IsLogged db
    → IsLogged (record (changed seller id f db) {
      events = state_event seller id o.state to reason ∷ db.events;
    })
moved-IsLogged seller id o f to reason db found allowed keeps state logged s i y h =
    let (x, there, e) = found_before seller id s i f y db keeps h in
    let xk : (x.id ≡ i) × (x.seller_id ≡ s) = keys_of s i x db.orders there in
    elim (Bool-cases (is_event s i (state_event seller id o.state to reason))) [
      | inl hit ↦
          let si : s ≡ seller = ground arith in
          let ii : i ≡ id = ground arith in
          let same : x ≡ o = ground (arith, found, there, si, ii) in
          let mine : is_order seller id x ≡ true =
            ground (arith, xk, si, ii, ==-self id, ==-self seller) in
          let at : y.state ≡ to = rw e (rw mine (state x)) in
          let past : Follows x.state (events_of s i db.events) = logged s i x there in
          rw hit (
            sym at,
            allowed,
            subst (λ (z : Order). Follows z.state (events_of s i db.events)) same past,
          )
      | inr miss ↦
          let other : is_order seller id x ≡ false = ground (arith, xk) in
          let past : Follows x.state (events_of s i db.events) = logged s i x there in
          rw miss (rw e (rw other past))
    ]

touched-IsLogged :
    (seller id : ℕ) (f : Order → Order) (db : Db)
    → KeepsKeys f
    → ((x : Order) → (f x).state ≡ x.state)
    → IsLogged db
    → IsLogged (changed seller id f db)
touched-IsLogged seller id f db keeps state logged s i y h =
    let (x, there, e) = found_before seller id s i f y db keeps h in
    let at : y.state ≡ x.state = ground (arith, e, state x) in rw at (logged s i x there)

created-IsLogged :
    (fresh now : ℕ) (req : CreateRequest) (db : Db)
    → IsUnused fresh db
    → IsLogged db
    → IsLogged (record db { orders = new_order fresh now req ∷ db.orders })
created-IsLogged fresh now req db unused logged s i y h =
    elim (Bool-cases (is_order s i (new_order fresh now req))) [
      | inl hit ↦
          let new : y ≡ new_order fresh now req = ground arith in
          let at : fresh ≡ i = ground arith in
          rw (new, sym at, no_events s fresh db.events unused.no_event) refl
      | inr miss ↦ logged s i y (ground arith)
    ]

-- A move keeps the log complete.
pub Moves-IsLogged : {db t : Db} → Moves db t → IsLogged db → IsLogged t
Moves-IsLogged Moves.same logged = logged
Moves-IsLogged {db = db} (Moves.moved seller id o f to reason found allowed keeps state) logged =
    moved-IsLogged seller id o f to reason db found allowed keeps state logged
Moves-IsLogged {db = db} (Moves.touched seller id f keeps state) logged =
    touched-IsLogged seller id f db keeps state logged
Moves-IsLogged {db = db} (Moves.created fresh now req unused) logged =
    created-IsLogged fresh now req db unused logged

-- The tables that calls lead to.
pub data Reach (s : Db) : Db → Type 0 where
  here : Reach s s
  next : {t : Db} (call : Call) → Reach s t → IsFreshCall call t → Reach s (after call t)

-- Calls of the order service in any order, each creation with an unused id, keep the log
-- complete: the events of each order lead from a draft to its state, each by a transition that
-- the state machine allows.
pub Reach-IsLogged : {s t : Db} → Reach s t → IsLogged s → IsLogged t
Reach-IsLogged here logged = logged
Reach-IsLogged (next {t = u} call r fresh) logged =
    Moves-IsLogged (after-Moves call u fresh) (Reach-IsLogged r logged)

-- A state that no transition leaves.
abbrev pub is_final : OrderState → Bool
is_final closed = true
is_final cancelled = true
is_final _ = false

pub final_stuck : (from to : OrderState) → is_final from ≡ true → can_transition from to ≡ false
unfolding can_transition
final_stuck closed to h = refl
final_stuck cancelled to h = refl
final_stuck draft to h = cc
final_stuck ready to h = cc
final_stuck allocating to h = cc
final_stuck booked to h = cc
final_stuck in_transit to h = cc
final_stuck delivered to h = cc
final_stuck rto to h = cc
