-- ===== src/Cod/Runs.antt =====
-- Calls of cash on delivery (backend/internal/cod/cod.go) and the books of the wallet.
use pikship.Prelude.{
  ℕ, String, ◌≡◌, ◌⊎◌, refl, sym, inl, inr, true, false, some, arith, str_eq, Bool-cases,
  Option-cases,
}
use mathlib.Core.Path.{subst}
use pikship.Prelude.Int.{ℤ}
use pikship.Prelude.Table.{select, select-holds, select-widen}
use pikship.Prelude.Tx.{ok}
use pikship.Wallet.Rows.{credit, Ref, LedgerEntry, ref_eq}
use pikship.Wallet.Rows
use pikship.Wallet.Repo.{owns}
use pikship.Wallet.Service.{credit_account}
use pikship.Wallet.Effects.{credit_found, credit_missing}
use pikship.Wallet.Invariant.{credit-IsConsistent}
use pikship.Cod.Service.{
  CodState, CodShipment, Db, has_shipment, is_cod, register, mark_collected, amount_of,
  is_collected, cod_ref, remit_collected, remit,
}
use pikship.Cod.Settled.{
  get_missing, get_found, is_paid, IsSettled, register-IsSettled, mark_collected-IsSettled,
  marked-IsSettled,
}

module _ (shipment_text : ℕ → String) where
  pub unpaid :
      (seller id : ℕ) (c : CodShipment) (db : Db)
      → IsSettled shipment_text db
      → select (is_cod seller id) db.cods ≡ some c
      → is_collected c.state ≡ true
      → (select (has_shipment id) db.cods ≡ some c) × (is_paid shipment_text id db.wallet ≡ false)
  unpaid seller id c db s found at =
      let only : select (has_shipment id) db.cods ≡ some c =
        select-widen (has_shipment id) (is_cod seller id) (λ x hit. ground arith) c db.cods
          (s.one id) found in
      (
        only,
        elim (Bool-cases (is_paid shipment_text id db.wallet)) [
          | inr no_entry ↦ no_entry
          | inl entered ↦ absurd (ground (arith, s.paid id entered))
        ],
      )

  module _
      (told_apart : (i k : ℕ) → str_eq (shipment_text i) (shipment_text k) ≡ true → i ≡ k) where
    -- A credit under the reference of `id` pays no other shipment.
    credit-paid :
        (fresh seller : ℕ) (amount : ℤ) (id : ℕ) (w : pikship.Wallet.Rows.Db)
        → is_paid shipment_text id w ≡ false
        → let (r, t) =
            credit_account fresh seller amount
              (cod_ref shipment_text id)
              "cod_remittance"
              "system"
              w in
          (t ≡ w)
          ⊎ ((r ≡ ok tt)
              × ((k : ℕ)
                  → is_paid shipment_text k t ≡ true
                  → (k ≡ id) ⊎ (is_paid shipment_text k w ≡ true)))
    credit-paid fresh seller amount id w new =
        elim (Option-cases (select (owns seller) w.accounts)) [
          | inl gone ↦
              inl
                (credit_missing fresh seller amount (cod_ref shipment_text id) "cod_remittance"
                  "system" w gone).1
          | inr (a, found) ↦
              elim (credit_found fresh seller a amount (cod_ref shipment_text id) "cod_remittance"
                "system" w found new) [
                  | inl same ↦ inl same
                  | inr (done, effect) ↦ inr (
                    done,
                    λ k h. elim (Bool-cases (str_eq (shipment_text id) (shipment_text k))) [
                      | inl same ↦ inl (sym (told_apart id k same))
                      | inr other ↦
                          let h' =
                            subst (λ (x : pikship.Wallet.Rows.Db). is_paid shipment_text k x ≡ true)
                              effect h in
                          inr (ground arith)
                    ],
                  )
                ]
        ]

    collected-IsSettled :
        (fresh now seller id : ℕ) (c : CodShipment) (st : CodState) (db : Db)
        → IsSettled shipment_text db
        → select (is_cod seller id) db.cods ≡ some c
        → c.state ≡ st
        → IsSettled shipment_text
            (remit_collected shipment_text false fresh now seller id c st db).1
    collected-IsSettled fresh now seller id c CodState.pending db s found at = s
    collected-IsSettled fresh now seller id c CodState.remitted db s found at = s
    collected-IsSettled fresh now seller id c CodState.disputed db s found at = s
    collected-IsSettled fresh now seller id c CodState.collected db s found at =
        let (only, clean) = unpaid seller id c db s found (ground arith) in
        let ref = cod_ref shipment_text id in
        marked-IsSettled shipment_text now seller id c db
          (credit_account fresh seller (amount_of c) ref "cod_remittance" "system" db.wallet).0
          (credit_account fresh seller (amount_of c) ref "cod_remittance" "system" db.wallet).1 s
          (select-holds (is_cod seller id) c db.cods found) only
          (credit-IsConsistent fresh seller (amount_of c) ref "cod_remittance" "system" db.wallet
            clean s.books)
          (credit-paid fresh seller (amount_of c) id db.wallet clean)

    remit-IsSettled :
        (fresh now seller id : ℕ) (db : Db)
        → IsSettled shipment_text db
        → IsSettled shipment_text (remit shipment_text false fresh now seller id db).1
    unfolding remit
    remit-IsSettled fresh now seller id db s =
        elim (Option-cases (select (is_cod seller id) db.cods)) [
          | inl gone ↦ rw (get_missing seller id db gone) s
          | inr (c, found) ↦
              rw (get_found seller id c db found)
                (collected-IsSettled fresh now seller id c c.state db s found refl)
        ]

  -- What calls of the service lead to, when the update after a credit does not fail.
  pub data Reach (db : Db) : Db → Type 0 where
    here : Reach db db
    registers :
        {t : Db} (seller id order : ℕ) (carrier : String) (expected : ℤ)
        → Reach db t
        → Reach db (register seller id order carrier expected t).1
    collects :
        {t : Db} (seller id : ℕ) (reported : ℤ) (at : ℕ)
        → Reach db t
        → Reach db (mark_collected seller id reported at t).1
    remits :
        {t : Db} (fresh now seller id : ℕ)
        → Reach db t
        → Reach db (remit shipment_text false fresh now seller id t).1

  -- Calls of Register, MarkCollected and Remit in any order, for any sellers and shipments, where
  -- the update after a credit does not fail and distinct shipments are printed apart, keep the
  -- books settled: the wallet's tables are consistent, a shipment has one row at most, and a
  -- shipment whose remittance is in the ledger is marked as remitted.
  pub Reach-IsSettled :
      {s t : Db}
      → ((i k : ℕ) → str_eq (shipment_text i) (shipment_text k) ≡ true → i ≡ k)
      → Reach s t
      → IsSettled shipment_text s
      → IsSettled shipment_text t
  Reach-IsSettled apart here s = s
  Reach-IsSettled apart (registers seller id order carrier expected r) s =
      register-IsSettled shipment_text seller id order carrier expected _
        (Reach-IsSettled apart r s)
  Reach-IsSettled apart (collects seller id reported at r) s =
      mark_collected-IsSettled shipment_text seller id reported at _ (Reach-IsSettled apart r s)
  Reach-IsSettled apart (remits fresh now seller id r) s =
      remit-IsSettled apart fresh now seller id _ (Reach-IsSettled apart r s)
