-- ===== src/Shipments/Sound.antt =====
-- What calls of the shipment service keep: the log tells how each shipment came to its state, and a
-- shipment with a carrier has a waybill.
use pikship.Prelude.{
  ℕ, ◌≡◌, refl, sym, ◌∙◌, inl, inr, String, Bool, true, false, ◌&&◌, Option, some, List, [], ◌∷◌,
  arith, ◌==◌, ==-self, if◌then◌else◌, Bool-cases, Option-cases,
}
use mathlib.Core.Path.{subst}
use pikship.Prelude.Table.{select, update, any, select-update, map_some, apply_if, select-holds}
use pikship.Shipments.Rows.{
  ShipmentState, pending_carrier, Shipment, Decision, StateEvent, Db, Adapter,
}
use pikship.Shipments.Store.{is_shipment, state_event}
use pikship.Shipments.Moves.{
  may_move, has_waybill, event_of_id, KeepsKeys, Moves, Run, stop, step, stepped, added,
}
use pikship.Shipments.Calls.{Call, IsFreshCall, NamesWaybillsAll, after, after-Run}

abbrev pub is_event : ℕ → ℕ → StateEvent → Bool
is_event seller id e = e.shipment_id == id && e.seller_id == seller

-- The events of a shipment, the last one first.
abbrev pub events_of : ℕ → ℕ → List StateEvent → List StateEvent
events_of seller id [] = []
events_of seller id (e ∷ es) =
    if is_event seller id e then e ∷ events_of seller id es else events_of seller id es

-- The events lead from `pending_carrier` to the state, each by an allowed move.
abbrev pub Follows : ShipmentState → List StateEvent → Type 0
Follows st [] = st ≡ pending_carrier
Follows st (e ∷ es) = (e.to ≡ st) × (may_move e.from e.to ≡ true) × Follows e.from es

abbrev pub IsSound : Db → Type 0
IsSound db =
    (seller id : ℕ) (s : Shipment)
    → select (is_shipment seller id) db.shipments ≡ some s
    → Follows s.state (events_of seller id db.events) × (has_waybill s ≡ true)

no_events :
    (seller id : ℕ) (es : List StateEvent)
    → any (event_of_id id) es ≡ false
    → events_of seller id es ≡ []
no_events seller id [] h = refl
no_events seller id (e ∷ es) h = ground (arith, no_events seller id es)

-- The row found after a change of the shipment `seller`, `id`.
found_before :
    (seller id s i : ℕ) (f : Shipment → Shipment) (o : Shipment) (xs : List Shipment)
    → KeepsKeys f
    → select (is_shipment s i) (update (is_shipment seller id) f xs) ≡ some o
    → (x : Shipment) × (select (is_shipment s i) xs ≡ some x)
      × (o ≡ apply_if (is_shipment seller id) f x)
found_before seller id s i f o xs keeps h =
    let e : select (is_shipment s i) (update (is_shipment seller id) f xs)
        ≡ map_some (apply_if (is_shipment seller id) f) (select (is_shipment s i) xs) =
      select-update (is_shipment seller id) (is_shipment s i) f
        (λ x. rw (keeps.id x, keeps.seller_id x) refl) xs in
    elim (Option-cases (select (is_shipment s i) xs)) [
      | inl gone ↦ absurd (ground (arith, sym h ∙ e, gone))
      | inr (x, there) ↦ (x, there, ground (arith, sym h ∙ e, there))
    ]

keys_of :
    (seller id : ℕ) (x : Shipment) (xs : List Shipment)
    → select (is_shipment seller id) xs ≡ some x
    → (x.id ≡ id) × (x.seller_id ≡ seller)
keys_of seller id x xs h =
    let hit : is_shipment seller id x ≡ true = select-holds (is_shipment seller id) x xs h in
    (ground arith, ground arith)

moved-IsSound :
    (seller id : ℕ) (o : Shipment) (f : Shipment → Shipment) (to : ShipmentState) (reason : String)
    (db : Db)
    → select (is_shipment seller id) db.shipments ≡ some o
    → may_move o.state to ≡ true
    → KeepsKeys f
    → ((x : Shipment) → (f x).state ≡ to)
    → (has_waybill o ≡ true → has_waybill (f o) ≡ true)
    → IsSound db
    → IsSound (stepped seller id f o.state to reason db)
moved-IsSound seller id o f to reason db found allowed keeps state waybill sound s i y h =
    let (x, there, e) = found_before seller id s i f y db.shipments keeps h in
    let xk : (x.id ≡ i) × (x.seller_id ≡ s) = keys_of s i x db.shipments there in
    elim (Bool-cases (is_event s i (state_event seller id o.state to reason))) [
      | inl hit ↦
          let si : s ≡ seller = ground arith in
          let ii : i ≡ id = ground arith in
          let same : x ≡ o = ground (arith, found, there, si, ii) in
          let mine : is_shipment seller id x ≡ true =
            ground (arith, xk, si, ii, ==-self id, ==-self seller) in
          let now : y ≡ f o = rw e (rw mine (rw same refl)) in
          let past : Follows o.state (events_of s i db.events) × (has_waybill o ≡ true) =
            sound s i o (there ∙ rw same refl) in
          rw (hit, now) ((sym (state o), allowed, past.0), waybill past.1)
      | inr miss ↦
          let other : is_shipment seller id x ≡ false = ground (arith, xk) in
          let now : y ≡ x = rw e (rw other refl) in rw (miss, now) (sound s i x there)
    ]

opened-IsSound :
    (o : Shipment) (d : Decision) (db : Db)
    → o.state ≡ pending_carrier
    → any (event_of_id o.id) db.events ≡ false
    → IsSound db
    → IsSound (added o d db)
opened-IsSound o d db pending unused sound s i y h = elim (Bool-cases (is_shipment s i o)) [
  | inl hit ↦
      let new : y ≡ o = ground arith in
      let at : o.id ≡ i = ground arith in
      let none_yet : events_of s i db.events ≡ [] =
        no_events s i db.events (subst (λ k. any (event_of_id k) db.events ≡ false) at unused) in
      rw (new, none_yet) (pending, rw pending refl)
  | inr miss ↦ sound s i y (ground arith)
]

Moves-IsSound : {db t : Db} → Moves db t → IsSound db → IsSound t
Moves-IsSound (Moves.orders o) sound = sound
Moves-IsSound {db = db} (Moves.opened s d pending unused) sound =
    opened-IsSound s d db pending unused sound
Moves-IsSound {db = db} (Moves.moved seller id s f to reason found allowed keeps state waybill)
      sound =
    moved-IsSound seller id s f to reason db found allowed keeps state waybill sound

pub Run-IsSound : {s t : Db} → Run s t → IsSound s → IsSound t
Run-IsSound stop sound = sound
Run-IsSound (step r m) sound = Moves-IsSound m (Run-IsSound r sound)

module _ (registry : String → Option Adapter) where
  -- The tables that calls lead to.
  pub data Reach (s : Db) : Db → Type 0 where
    here : Reach s s
    next : {t : Db} (call : Call) → Reach s t → IsFreshCall call t → Reach s (after registry call t)

  -- Calls of the shipment service in any order, with any changes of the order tables between them,
  -- each booking with an unused shipment id, and with carriers that name a waybill, not an empty
  -- one, when they take a booking, keep the tables sound: the events of each shipment lead from
  -- pending_carrier to its state by moves that the code allows (Cancel from any state), and a
  -- shipment that is booked, in transit, delivered or returning has a waybill that is not empty.
  pub Reach-IsSound : {s t : Db} → NamesWaybillsAll registry → Reach s t → IsSound s → IsSound t
  Reach-IsSound named here sound = sound
  Reach-IsSound named (next {t = u} call r fresh) sound =
      Run-IsSound (after-Run registry call u named fresh) (Reach-IsSound named r sound)
