-- ===== src/Shipments/Phases.antt =====
-- What the two phases of a booking (backend/internal/shipments/service_impl.go) do to the tables.
use pikship.Prelude.{
  ℕ, ◌≡◌, refl, ap, ◌∙◌, ◌⊎◌, inl, inr, String, Bool, false, ◌&&◌, ◌||◌, ◌∷◌, arith, ◌==◌,
  if◌then◌else◌, Bool-cases,
}
use pikship.Prelude.Table.{update, any}
use pikship.Prelude.Tx.{
  database, Result, is_ok, ok, err, Tx, ◌>>◌, pure, settle, >>-ok, >>-err, with_seller_tx-runs,
}
use pikship.Shipments.Rows.{
  pending_carrier, booked, failed, Shipment, Decision, Db, Candidate, BookRequest,
}
use pikship.Shipments.Store.{
  is_shipment, insert_decision, insert_shipment, new_shipment, set_shipment, confirmed,
  marked_failed, decides, no_order, of_order, awb_taken, state_event, insert_event,
}
use pikship.Shipments.Service.{decision, persist_phase_a, confirm_row, confirm_phase_b, mark_failed}
use pikship.Shipments.Moves.{stepped, added}

abbrev pub awb_clash : ℕ → ℕ → String → Db → Bool
awb_clash seller id awb db =
    any (is_shipment seller id) db.shipments && any (awb_taken id awb) db.shipments

confirm_row-cases :
    (now seller id : ℕ) (awb ref : String) (db : Db)
    → confirm_row now seller id awb ref db ≡ (
        if awb_clash seller id awb db
        then err database
        else ok (
          tt,
          record db {
            shipments = update (is_shipment seller id) (confirmed now awb ref) db.shipments;
          },
        ))
unfolding confirm_row set_shipment
confirm_row-cases now seller id awb ref db = refl

pub confirm_cases :
    (now seller id : ℕ) (awb ref : String) (db : Db)
    → let t = (confirm_phase_b now seller id awb ref db).1 in
      (t ≡ db)
      ⊎ (t
          ≡ stepped seller id (confirmed now awb ref) pending_carrier booked "carrier confirmed" db)
unfolding confirm_phase_b insert_event
confirm_cases now seller id awb ref db = elim (Bool-cases (seller == 0)) [
  | inl zero ↦ rw zero (inl refl)
  | inr scoped ↦
      let logs = insert_event (state_event seller id pending_carrier booked "carrier confirmed") in
      let row = confirm_row now seller id awb ref in
      let t : Db = record db {
        shipments = update (is_shipment seller id) (confirmed now awb ref) db.shipments;
      } in
      elim (Bool-cases (awb_clash seller id awb db)) [
        | inl clash ↦
            let stops : row db ≡ err database =
              confirm_row-cases now seller id awb ref db ∙ rw clash refl in
            inl (
              ap (λ x. x.1)
                (with_seller_tx-runs seller (row >> logs) db (err database) scoped
                  (>>-err row logs db database stops)))
        | inr free ↦
            let writes : row db ≡ ok (tt, t) =
              confirm_row-cases now seller id awb ref db ∙ rw free refl in
            let run : confirm_phase_b now seller id awb ref db ≡ settle db (logs t) =
              with_seller_tx-runs seller (row >> logs) db (logs t) scoped
                (>>-ok row logs db t tt writes) in
            rw run (ground arith)
      ]
]

pub failed_cases :
    (now seller id : ℕ) (message : String) (db : Db)
    → let t = (mark_failed now seller id message db).1 in
      (t ≡ db)
      ⊎ (t ≡ stepped seller id (marked_failed now message) pending_carrier failed message db)
unfolding mark_failed set_shipment insert_event
failed_cases now seller id message db = ground arith

-- The inserts of phase A meet a decision or a shipment that is there, or an order that is not.
abbrev pub phase_a_blocked : ℕ → ℕ → BookRequest → Db → Bool
phase_a_blocked fresh fresh_decision req db =
    (any (λ (e : Decision). e.id == fresh_decision) db.decisions
      || (any (decides req.order_id) db.decisions || no_order req.order_id db))
    || (any (λ (e : Shipment). e.id == fresh) db.shipments
        || any (of_order req.order_id) db.shipments)

pub phase_a_run :
    (fresh fresh_decision : ℕ) (c : Candidate) (req : BookRequest) (db : Db)
    → (req.seller_id == 0) ≡ false
    → persist_phase_a fresh fresh_decision c req db ≡ (
        if phase_a_blocked fresh fresh_decision req db then (err database, db) else (
          ok fresh,
          added (new_shipment fresh fresh_decision c req) (decision fresh_decision req) db,
        ))
unfolding persist_phase_a insert_decision insert_shipment
phase_a_run fresh fresh_decision c req db scoped =
    let decides_it : Tx Db (Unit {0}) = insert_decision (decision fresh_decision req) in
    let opens : Tx Db (Unit {0}) = insert_shipment (new_shipment fresh fresh_decision c req) in
    let t : Db = record db { decisions = decision fresh_decision req ∷ db.decisions } in
    let a : Bool =
      any (λ (e : Decision). e.id == fresh_decision) db.decisions
      || (any (decides req.order_id) db.decisions || no_order req.order_id db) in
    let b : Bool =
      any (λ (e : Shipment). e.id == fresh) db.shipments
      || any (of_order req.order_id) db.shipments in
    let runs : (r : Result (ℕ × Db))
        → (decides_it >> opens >> pure fresh) db ≡ r
        → persist_phase_a fresh fresh_decision c req db ≡ settle db r =
      λ r h. with_seller_tx-runs req.seller_id (decides_it >> opens >> pure fresh) db r scoped h in
    elim (Bool-cases a) [
      | inl blocked ↦
          let stops : decides_it db ≡ err database = rw blocked refl in
          runs (err database) (
            >>-err (decides_it >> opens) (pure fresh) db database
              (>>-err decides_it opens db database stops))
          ∙ rw blocked refl
      | inr clear ↦
          let writes : decides_it db ≡ ok (tt, t) = rw clear refl in
          elim (Bool-cases b) [
            | inl blocked ↦
                let stops : opens t ≡ err database = rw blocked refl in
                runs (err database) (
                  >>-err (decides_it >> opens) (pure fresh) db database
                    (>>-ok decides_it opens db t tt writes ∙ stops))
                ∙ rw (clear, blocked) refl
            | inr free ↦
                let last : Db =
                  added (new_shipment fresh fresh_decision c req) (decision fresh_decision req)
                    db in
                let opened : opens t ≡ ok (tt, last) = rw free refl in
                runs (ok (fresh, last)) (
                  >>-ok (decides_it >> opens) (pure fresh) db last tt
                    (>>-ok decides_it opens db t tt writes ∙ opened))
                ∙ rw (clear, free) refl
          ]
    ]

pub phase_a_cases :
    (fresh fresh_decision : ℕ) (c : Candidate) (req : BookRequest) (db : Db)
    → let (r, t) = persist_phase_a fresh fresh_decision c req db in
      ((t ≡ db) × (is_ok r ≡ false))
      ⊎ ((r ≡ ok fresh)
          × (t ≡ added (new_shipment fresh fresh_decision c req) (decision fresh_decision req) db))
unfolding persist_phase_a
phase_a_cases fresh fresh_decision c req db = elim (Bool-cases (req.seller_id == 0)) [
  | inl zero ↦ rw zero (inl (refl, refl))
  | inr scoped ↦ elim (Bool-cases (phase_a_blocked fresh fresh_decision req db)) [
    | inl blocked ↦
        let run : persist_phase_a fresh fresh_decision c req db ≡ (err database, db) =
          phase_a_run fresh fresh_decision c req db scoped ∙ rw blocked refl in
        inl (ap (λ x. x.1) run, ap (λ (x : Result ℕ × Db). is_ok x.0) run)
    | inr free ↦
        let run : persist_phase_a fresh fresh_decision c req db ≡ (
          ok fresh,
          added (new_shipment fresh fresh_decision c req) (decision fresh_decision req) db,
        ) =
          phase_a_run fresh fresh_decision c req db scoped ∙ rw free refl in
        inr (ap (λ x. x.0) run, ap (λ x. x.1) run)
  ]
]
