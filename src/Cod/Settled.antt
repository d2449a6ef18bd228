-- ===== src/Cod/Settled.antt =====
-- The rows of cash on delivery (backend/internal/cod/cod.go) beside the ledger of the wallet.
use pikship.Prelude.{
  ℕ, ◌≤◌, String, ◌≡◌, ◌⊎◌, refl, inl, inr, Bool, true, false, ◌&&◌, Option, none, some, List,
  arith, ◌==◌, Bool-cases, Option-cases,
}
use pikship.Prelude.Int.{ℤ}
use pikship.Prelude.Table.{
  select, update, any, count, any→count, count-update, select-update, select→any,
}
use pikship.Prelude.Tx.{not_found, Result, ok, err}
use pikship.Wallet.Rows.{credit, Ref, LedgerEntry, ref_eq}
use pikship.Wallet.Rows
use pikship.Wallet.Repo.{same_event}
use pikship.Wallet.Consistent.{IsConsistent}
use pikship.Cod.Service.{
  CodState, CodShipment, Db, has_shipment, is_cod, is_pending, register, collect, mark_collected,
  get, pay_out, mark_remitted, cod_ref,
}

abbrev pub is_remitted : CodState → Bool
is_remitted CodState.remitted = true
is_remitted _ = false

abbrev pub is_settled : Option CodShipment → Bool
is_settled none = false
is_settled (some c) = is_remitted c.state

pub get_missing :
    (seller id : ℕ) (db : Db)
    → select (is_cod seller id) db.cods ≡ none
    → get seller id db ≡ err not_found
unfolding get
get_missing seller id db gone = rw (get, gone) refl

pub get_found :
    (seller id : ℕ) (c : CodShipment) (db : Db)
    → select (is_cod seller id) db.cods ≡ some c
    → get seller id db ≡ ok c
unfolding get
get_found seller id c db found = rw (get, found) refl

module _ (shipment_text : ℕ → String) where
  -- A remittance for this shipment is in the ledger.
  abbrev pub is_paid : ℕ → pikship.Wallet.Rows.Db → Bool
  is_paid id w = any (same_event (cod_ref shipment_text id) credit) w.ledger

  -- The books of the wallet are consistent, and what is paid is marked as remitted.
  pub record IsSettled (db : Db) : Type 0 where
    pub books : IsConsistent db.wallet
    pub one : (id : ℕ) → count (has_shipment id) db.cods ≤ 1
    pub paid :
        (id : ℕ)
        → is_paid id db.wallet ≡ true
        → is_settled (select (has_shipment id) db.cods) ≡ true

  pub register-IsSettled :
      (seller id order : ℕ) (carrier : String) (expected : ℤ) (db : Db)
      → IsSettled db
      → IsSettled (register seller id order carrier expected db).1
  unfolding register
  register-IsSettled seller id order carrier expected db s =
      elim (Bool-cases (any (has_shipment id) db.cods)) [
        | inl there ↦ rw there s
        | inr new ↦ rw new (record {
          books = s.books;
          one = λ k. elim (Bool-cases (id == k)) [
            | inr other ↦ rw other (omega (arith, s.one k))
            | inl same ↦
                let none_yet : count (has_shipment k) db.cods ≡ 0 =
                  any→count (has_shipment id) (has_shipment k) (λ c hit. ground arith) db.cods
                    new in
                rw (same, none_yet) (omega arith)
          ];
          paid = λ k h. elim (Bool-cases (id == k)) [
            | inr other ↦ rw other (s.paid k h)
            | inl same ↦ elim (Option-cases (select (has_shipment k) db.cods)) [
              | inl gone ↦ absurd (ground (arith, s.paid k h))
              | inr (c, found) ↦
                  let seen =
                    select→any (has_shipment id) (has_shipment k) (λ x hit. ground arith) c db.cods
                      found in
                  absurd (ground arith)
            ]
          ];
        })
      ]

  pub mark_collected-IsSettled :
      (seller id : ℕ) (reported : ℤ) (at : ℕ) (db : Db)
      → IsSettled db
      → IsSettled (mark_collected seller id reported at db).1
  unfolding mark_collected
  mark_collected-IsSettled seller id reported at db s =
      let p : CodShipment → Bool = λ c. is_cod seller id c && is_pending c.state in
      record {
        books = s.books;
        one = λ k.
            rw (count-update p (has_shipment k) (collect reported at) (λ c. refl) db.cods)
              (s.one k);
        paid = λ k h.
            rw (select-update p (has_shipment k) (collect reported at) (λ c. refl) db.cods)
              (elim (Option-cases (select (has_shipment k) db.cods)) [
                | inl gone ↦ absurd (ground (arith, s.paid k h))
                | inr (c, found) ↦ rw found (ground (arith, s.paid k h))
              ]);
      }

  -- An update that marks rows as remitted settles more, and the row that it finds.
  pay_out-keeps :
      (now seller id k : ℕ) (cods : List CodShipment)
      → is_settled (select (has_shipment k) cods) ≡ true
      → is_settled (select (has_shipment k) (update (is_cod seller id) (pay_out now) cods)) ≡ true
  pay_out-keeps now seller id k cods h =
      rw (select-update (is_cod seller id) (has_shipment k) (pay_out now) (λ c. refl) cods)
        (elim (Option-cases (select (has_shipment k) cods)) [
          | inl gone ↦ absurd (ground arith)
          | inr (c, found) ↦ rw found (ground arith)
        ])

  pay_out-settles :
      (now seller id : ℕ) (c : CodShipment) (cods : List CodShipment)
      → is_cod seller id c ≡ true
      → select (has_shipment id) cods ≡ some c
      → is_settled (select (has_shipment id) (update (is_cod seller id) (pay_out now) cods)) ≡ true
  pay_out-settles now seller id c cods mine found =
      rw (select-update (is_cod seller id) (has_shipment id) (pay_out now) (λ c. refl) cods)
        (rw (found, mine) refl)

  pub marked-IsSettled :
      (now seller id : ℕ) (c : CodShipment) (db : Db) (r : Result (Unit {0}))
      (w : pikship.Wallet.Rows.Db)
      → IsSettled db
      → is_cod seller id c ≡ true
      → select (has_shipment id) db.cods ≡ some c
      → IsConsistent w
      → (w ≡ db.wallet)
        ⊎ ((r ≡ ok tt) × ((k : ℕ) → is_paid k w ≡ true → (k ≡ id) ⊎ (is_paid k db.wallet ≡ true)))
      → IsSettled (mark_remitted false now seller id db (r, w)).1
  marked-IsSettled now seller id c db (err e) w s mine found books (inr (done, _)) = cc
  marked-IsSettled now seller id c db (err e) w s mine found books (inl same) = record {
    books = books;
    one = s.one;
    paid = λ k h. s.paid k (rw (← same) h);
  }
  marked-IsSettled now seller id c db (ok _) w s mine found books how = record {
    books = books;
    one = λ k.
        rw (count-update (is_cod seller id) (has_shipment k) (pay_out now) (λ c. refl) db.cods)
          (s.one k);
    paid = λ k h. elim how [
      | inl same ↦ pay_out-keeps now seller id k db.cods (s.paid k (rw (← same) h))
      | inr (_, more) ↦ elim (more k h) [
        | inl this ↦ rw this (pay_out-settles now seller id c db.cods mine found)
        | inr before ↦ pay_out-keeps now seller id k db.cods (s.paid k before)
      ]
    ];
  }
