-- ===== src/Cod/Retries.antt =====
-- A second Remit (backend/internal/cod/cod.go): after one that succeeded, and after one whose last
-- statement failed.
use pikship.Prelude.{
  ℕ, String, ◌≡◌, refl, sym, ap, ◌∙◌, inl, inr, Bool, true, false, some, arith, Option-cases, ◌∷◌,
}
use pikship.Prelude.Int.{◌+ℤ◌}
use pikship.Prelude.Table.{select, select-update, select-holds}
use pikship.Prelude.Tx.{plain, Result, ok, err}
use pikship.Wallet.Rows.{credit, Ref, LedgerEntry, Account, ref_eq}
use pikship.Wallet.Rows
use pikship.Wallet.Repo.{owns}
use pikship.Wallet.Service.{credit_account}
use pikship.Wallet.Consistent.{IsConsistent}
use pikship.Wallet.Totals.{balance_total}
use pikship.Cod.Service.{
  CodState, CodShipment, Db, is_cod, get, amount_of, pay_out, mark_remitted, cod_ref,
  remit_collected, remit_found, remit,
}
use pikship.Cod.Settled.{get_missing, get_found, IsSettled}
use pikship.Cod.Runs.{unpaid}
use pikship.Cod.Credits.{twice}

module _ (shipment_text : ℕ → String) where
  marked_once :
      (now seller id : ℕ) (db : Db) (c : CodShipment)
      (r : Result (Unit {0}) × pikship.Wallet.Rows.Db)
      → select (is_cod seller id) db.cods ≡ some c
      → (mark_remitted false now seller id db r).0 ≡ ok tt
      → select (is_cod seller id) (mark_remitted false now seller id db r).1.cods
        ≡ some (pay_out now c)
  marked_once now seller id db c (err e, w) found done = cc
  marked_once now seller id db c (ok _, w) found done =
      rw (select-update (is_cod seller id) (is_cod seller id) (pay_out now) (λ x. refl) db.cods)
        (rw (found, select-holds (is_cod seller id) c db.cods found) refl)

  collected_once :
      (fresh now seller id : ℕ) (db : Db) (c : CodShipment) (st : CodState)
      → select (is_cod seller id) db.cods ≡ some c
      → (remit_collected shipment_text false fresh now seller id c st db).0 ≡ ok tt
      → select
          (is_cod seller id)
          (remit_collected shipment_text false fresh now seller id c st db).1.cods
        ≡ some (pay_out now c)
  collected_once fresh now seller id db c CodState.pending found done = cc
  collected_once fresh now seller id db c CodState.remitted found done = cc
  collected_once fresh now seller id db c CodState.disputed found done = cc
  collected_once fresh now seller id db c CodState.collected found done =
      marked_once now seller id db c
        (credit_account fresh seller (amount_of c) (cod_ref shipment_text id) "cod_remittance"
          "system" db.wallet)
        found done

  found_once :
      (fresh now seller id : ℕ) (db : Db)
      → (remit shipment_text false fresh now seller id db).0 ≡ ok tt
      → (c : CodShipment) × (get seller id (remit shipment_text false fresh now seller id db).1
          ≡ ok (pay_out now c))
  unfolding remit
  found_once fresh now seller id db done = elim (Option-cases (select (is_cod seller id) db.cods)) [
    | inl gone ↦ absurd (ground (arith, get_missing seller id db gone))
    | inr (c, found) ↦
        let at =
          ap (λ (g : Result CodShipment). remit_found shipment_text false fresh now seller id g db)
            (get_found seller id c db found) in
        (
          c,
          get_found seller id (pay_out now c)
              (remit_found shipment_text false fresh now seller id (get seller id db) db).1
              (ap (λ (x : Result (Unit {0}) × Db). select (is_cod seller id) x.1.cods) at
                ∙ collected_once fresh now seller id db c c.state found
                    (sym (ap (λ (x : Result (Unit {0}) × Db). x.0) at) ∙ done)),
        )
  ]

  remitted_refused :
      (down : Bool) (fresh now before seller id : ℕ) (c : CodShipment) (db : Db)
      → get seller id db ≡ ok (pay_out before c)
      → remit shipment_text down fresh now seller id db ≡ (err plain, db)
  unfolding remit
  remitted_refused down fresh now before seller id c db settled = rw settled refl

  -- After a Remit that succeeded, a Remit of the same seller and shipment is refused and changes
  -- nothing.
  pub remit_once :
      (down : Bool) (fresh now later_fresh later seller id : ℕ) (db : Db)
      → (remit shipment_text false fresh now seller id db).0 ≡ ok tt
      → remit shipment_text down later_fresh later seller id
          (remit shipment_text false fresh now seller id db).1
        ≡ (err plain, (remit shipment_text false fresh now seller id db).1)
  remit_once down fresh now later_fresh later seller id db done =
      let (c, settled) = found_once fresh now seller id db done in
      remitted_refused down later_fresh later now seller id c _ settled

  marked_wallet :
      (down : Bool) (now seller id : ℕ) (db : Db) (r : Result (Unit {0}) × pikship.Wallet.Rows.Db)
      → ((mark_remitted down now seller id db r).1.wallet ≡ r.1)
        × ((mark_remitted down now seller id db r).0 ≡ ok tt → r.0 ≡ ok tt)
  marked_wallet down now seller id db (err e, w) = (refl, λ h. cc)
  marked_wallet true now seller id db (ok tt, w) = (refl, λ h. refl)
  marked_wallet false now seller id db (ok tt, w) = (refl, λ h. refl)

  marked_cods :
      (now seller id : ℕ) (db : Db) (r : Result (Unit {0}) × pikship.Wallet.Rows.Db)
      → (mark_remitted true now seller id db r).1.cods ≡ db.cods
  marked_cods now seller id db (err e, w) = refl
  marked_cods now seller id db (ok tt, w) = refl

  -- Remit of a collected row is the credit and the update.
  remit_is :
      (down : Bool) (fresh now seller id : ℕ) (c : CodShipment) (db : Db)
      → select (is_cod seller id) db.cods ≡ some c
      → c.state ≡ CodState.collected
      → remit shipment_text down fresh now seller id db
        ≡ mark_remitted down now seller id db (
            credit_account fresh seller
              (amount_of c)
              (cod_ref shipment_text id)
              "cod_remittance"
              "system"
              db.wallet)
  unfolding remit
  remit_is down fresh now seller id c db found at = rw (get_found seller id c db found, at) refl

  -- From settled books, where Remit of a collected shipment credits the wallet and its last update
  -- fails, a second Remit that succeeds leaves the balance of the seller's account higher by twice
  -- the amount and the ledger with one entry more than before the first, so that the wallet is
  -- inconsistent.
  pub remit_retry_breaks :
      (fresh now later_fresh later seller id : ℕ) (c : CodShipment) (db : Db)
      → IsSettled shipment_text db
      → select (is_cod seller id) db.cods ≡ some c
      → c.state ≡ CodState.collected
      → (credit_account fresh seller
          (amount_of c)
          (cod_ref shipment_text id)
          "cod_remittance"
          "system"
          db.wallet).0
        ≡ ok tt
      → (remit shipment_text false later_fresh later seller id
          (remit shipment_text true fresh now seller id db).1).0
        ≡ ok tt
      → let u =
          (remit shipment_text false later_fresh later seller id
            (remit shipment_text true fresh now seller id db).1).1.wallet in
        (a : Account) × (select (owns seller) db.wallet.accounts ≡ some a)
        × (balance_total a.id u.accounts
            ≡ (balance_total a.id db.wallet.accounts +ℤ amount_of c) +ℤ amount_of c)
        × (u.ledger
            ≡ record {
              id = fresh;
              seller_id = seller;
              wallet_id = a.id;
              direction = credit;
              amount = amount_of c;
              ref = cod_ref shipment_text id;
              reason = "cod_remittance";
              actor = "system";
            }
              ∷ db.wallet.ledger)
        × (¬ IsConsistent u)
  remit_retry_breaks fresh now later_fresh later seller id c db s found at paid again =
      let ref = cod_ref shipment_text id in
      let first =
        credit_account fresh seller (amount_of c) ref "cod_remittance" "system" db.wallet in
      let t = (remit shipment_text true fresh now seller id db).1 in
      let is = remit_is true fresh now seller id c db found at in
      let wallet : t.wallet ≡ first.1 =
        ap (λ (x : Result (Unit {0}) × Db). x.1.wallet) is
        ∙ (marked_wallet true now seller id db first).0 in
      let there : select (is_cod seller id) t.cods ≡ some c =
        ap (select (is_cod seller id))
          (ap (λ (x : Result (Unit {0}) × Db). x.1.cods) is ∙ marked_cods now seller id db first)
        ∙ found in
      let second =
        credit_account later_fresh seller (amount_of c) ref "cod_remittance" "system" t.wallet in
      let is' = remit_is false later_fresh later seller id c t there at in
      let done : second.0 ≡ ok tt =
        (marked_wallet false later seller id t second).1
          (sym (ap (λ (x : Result (Unit {0}) × Db). x.0) is') ∙ again) in
      let after : (remit shipment_text false later_fresh later seller id t).1.wallet ≡ second.1 =
        ap (λ (x : Result (Unit {0}) × Db). x.1.wallet) is'
        ∙ (marked_wallet false later seller id t second).0 in
      twice fresh later_fresh seller (amount_of c) ref "cod_remittance" "system" db.wallet t.wallet
        _ s.books (unpaid shipment_text seller id c db s found (rw at refl)).1 wallet paid done
        after
