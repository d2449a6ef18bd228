-- ===== src/Wallet/Guards.antt =====
-- What Reserve and Debit of backend/internal/wallet/service_impl.go let through.
use pikship.Prelude.{
  ℕ, ◌+◌, String, ◌≡◌, refl, sym, ap, ◌∙◌, ◌⊎◌, inl, inr, ◌∷◌, true, false, not, ◌&&◌, none, some,
  arith, ◌==◌, ==-self, if◌then◌else◌,
}
use pikship.Prelude.Int.{ℤ, pos, neg, ◌+ℤ◌, ◌-ℤ◌, ◌≤ℤ◌, ◌<ℤ◌, ltb_ℤ, ltb_ℤ→pos, ltb_ℤ→≤, int_laws}
use pikship.Prelude.Int64.{IsInt64, fits, wrap, wrap-neg, wrap-neg_nonneg, wrap_of_IsInt64}
use pikship.Prelude.Table.{select, update, any, select-update, select-holds}
use pikship.Prelude.Tx.{permission_denied, invalid_argument, ok, err}
use pikship.Wallet.Rows.{AccountStatus, HoldStatus, Ref, Account, Db}
use pikship.Wallet.Repo.{
  owns, is_account, has_ref, add_balance, add_hold_total, get_account_for_update,
  insert_ledger_entry, add_entry, update_balance, update_hold_total, insert_or_get_hold, add_hold,
}
use pikship.Wallet.Service.{
  available, new_hold, grace_floor, insufficient_funds, account_frozen, not_active_account,
  debit_account, reserve,
}
use pikship.Wallet.Effects.{IsNewHold, with_event, reserved, effective_ttl}

counted :
    (seller : ℕ) (a : Account) (d : ℤ) (db : Db)
    → select (owns seller) db.accounts ≡ some a
    → select (owns seller) (update (is_account seller a.id) (add_hold_total d) db.accounts)
      ≡ some (add_hold_total d a)
counted seller a d db found =
    select-update (is_account seller a.id) (owns seller) (add_hold_total d) (λ x. refl) db.accounts
    ∙ rw found (ground (arith, select-holds (owns seller) a db.accounts found))

-- What is available, where no sum leaves the range of int64.
available_exact :
    (a : Account)
    → IsInt64 (a.balance +ℤ a.credit_limit)
    → IsInt64 ((a.balance +ℤ a.credit_limit) -ℤ a.hold_total)
    → available a ≡ (a.balance +ℤ a.credit_limit) -ℤ a.hold_total
available_exact a whole left =
    rw (wrap_of_IsInt64 (a.balance +ℤ a.credit_limit) whole)
      (wrap_of_IsInt64 ((a.balance +ℤ a.credit_limit) -ℤ a.hold_total) left)

below : (x y : ℤ) → ltb_ℤ x y ≡ true → x <ℤ y
below x y h = ground arith

covered : (x y h : ℤ) → ltb_ℤ (x -ℤ h) y ≡ false → y +ℤ h ≤ℤ x
covered x y h e = omega (arith, int_laws, ltb_ℤ→≤ (x -ℤ h) y e)

uncovered : (x y h : ℤ) → ltb_ℤ (x -ℤ h) y ≡ true → x <ℤ y +ℤ h
uncovered x y h e = omega (arith, int_laws, below (x -ℤ h) y e)

reserve_active :
    (fresh now seller : ℕ) (a : Account) (amount : ℤ) (ref : Ref) (ttl : ℕ) (db : Db)
    → (seller == 0) ≡ false
    → select (owns seller) db.accounts ≡ some a
    → select (has_ref ref) db.holds ≡ none
    → IsNewHold fresh db
    → ltb_ℤ (pos 0) amount ≡ true
    → any (λ b. is_account seller a.id b && not (fits (b.hold_total +ℤ amount))) db.accounts ≡ false
    → any (λ (b : Account). b.id == a.id) db.accounts ≡ true
    → ((not_active_account a.status ≡ true)
        × (reserve fresh now seller amount ref ttl db ≡ (err account_frozen, db)))
      ⊎ ((not_active_account a.status ≡ false)
          × (ltb_ℤ (available a) amount ≡ true)
          × (reserve fresh now seller amount ref ttl db ≡ (err insufficient_funds, db)))
      ⊎ ((not_active_account a.status ≡ false)
          × (ltb_ℤ (available a) amount ≡ false)
          × (reserve fresh now seller amount ref ttl db ≡ (
            ok fresh,
            with_event seller amount fresh (
                reserved seller a
                  (new_hold fresh a.id seller amount ref (now + effective_ttl ttl))
                  amount
                  db),
          )))
unfolding reserve get_account_for_update insert_or_get_hold add_hold update_hold_total
reserve_active fresh now seller a amount ref ttl db scoped found new unused positive room known =
    ground (arith, ==-self fresh)

status_frozen : (st : AccountStatus) → not_active_account st ≡ true → st ≡ AccountStatus.active → ⊥
status_frozen st h e = ground arith

status_active : (st : AccountStatus) → not_active_account st ≡ false → st ≡ AccountStatus.active
status_active AccountStatus.active h = refl
status_active AccountStatus.frozen h = cc
status_active AccountStatus.wound_down h = cc

-- The answer of Reserve and the tables after it, for a positive amount, a reference that no hold
-- has, an unused id, and sums that stay in the range of int64: refused on an account that is not
-- active; refused where the amount and what is held exceed the balance with the credit limit;
-- otherwise a new active hold for the amount, counted in the hold total of the seller's account,
-- with the rest of that account, the other holds and the ledger as they were.
pub reserve_outcome :
    (fresh now seller : ℕ) (a : Account) (amount : ℤ) (ref : Ref) (ttl : ℕ) (db : Db)
    → (seller == 0) ≡ false
    → select (owns seller) db.accounts ≡ some a
    → select (has_ref ref) db.holds ≡ none
    → IsNewHold fresh db
    → pos 1 ≤ℤ amount
    → IsInt64 (a.balance +ℤ a.credit_limit)
    → IsInt64 ((a.balance +ℤ a.credit_limit) -ℤ a.hold_total)
    → any (λ b. is_account seller a.id b && not (fits (b.hold_total +ℤ amount))) db.accounts ≡ false
    → any (λ (b : Account). b.id == a.id) db.accounts ≡ true
    → let (r, t) = reserve fresh now seller amount ref ttl db in
      ((¬ (a.status ≡ AccountStatus.active)) × (r ≡ err permission_denied) × (t ≡ db))
      ⊎ ((a.status ≡ AccountStatus.active)
          × (a.balance +ℤ a.credit_limit <ℤ amount +ℤ a.hold_total)
          × (r ≡ err invalid_argument)
          × (t ≡ db))
      ⊎ ((a.status ≡ AccountStatus.active)
          × (amount +ℤ a.hold_total ≤ℤ a.balance +ℤ a.credit_limit)
          × (r ≡ ok fresh)
          × (select (owns seller) t.accounts
              ≡ some (record a { hold_total = a.hold_total +ℤ amount }))
          × (t.holds
              ≡ record {
                id = fresh;
                seller_id = seller;
                wallet_id = a.id;
                amount = amount;
                status = HoldStatus.active;
                ref = ref;
                expires_at = now + (if ttl == 0 then 600_000_000_000 else ttl);
                resolved_to = none;
              }
                ∷ db.holds)
          × (t.ledger ≡ db.ledger))
reserve_outcome fresh now seller a amount ref ttl db scoped found new unused positive whole left
      room known =
    let is = available_exact a whole left in
    elim (reserve_active fresh now seller a amount ref ttl db scoped found new unused
      (ground (arith, positive)) room known) [
        | inl (frozen, out) ↦
            inl (status_frozen a.status frozen, ap (λ x. x.0) out, ap (λ x. x.1) out)
        | inr (inl (live, short, out)) ↦ inr (
            inl (
              status_active a.status live,
              uncovered (a.balance +ℤ a.credit_limit) amount a.hold_total (rw (sym is) short),
              ap (λ x. x.0) out,
              ap (λ x. x.1) out,
            ))
        | inr (inr (live, enough, out)) ↦ inr (
            inr (
              status_active a.status live,
              covered (a.balance +ℤ a.credit_limit) amount a.hold_total (rw (sym is) enough),
              ap (λ x. x.0) out,
              ap (λ x. select (owns seller) x.1.accounts) out ∙ counted seller a amount db found,
              ap (λ x. x.1.holds) out,
              ap (λ x. x.1.ledger) out,
            ))
      ]

debit_effect :
    (fresh seller : ℕ) (a : Account) (amount : ℤ) (ref : Ref) (reason actor : String) (db : Db)
    → select (owns seller) db.accounts ≡ some a
    → (debit_account fresh seller amount ref reason actor db).0 ≡ ok tt
    → (ltb_ℤ (wrap (a.balance -ℤ amount)) (grace_floor a) ≡ false)
      × (ltb_ℤ (pos 0) amount ≡ true)
      × ((debit_account fresh seller amount ref reason actor db).1.accounts
          ≡ update (is_account seller a.id) (add_balance (wrap (neg amount))) db.accounts)
unfolding debit_account get_account_for_update insert_ledger_entry add_entry update_balance
debit_effect fresh seller a amount ref reason actor db found done = ground arith

pub record IsRepresentable (a : Account) : Type 0 where
  pub balance : IsInt64 a.balance
  pub limits : IsInt64 (a.grace_amount +ℤ a.credit_limit)
  pub grace_nonneg : pos 0 ≤ℤ a.grace_amount +ℤ a.credit_limit

grace_floor_exact :
    (a : Account) → IsRepresentable a → grace_floor a ≡ neg (a.grace_amount +ℤ a.credit_limit)
grace_floor_exact a fit =
    rw (wrap_of_IsInt64 (a.grace_amount +ℤ a.credit_limit) fit.limits)
      (wrap-neg_nonneg (a.grace_amount +ℤ a.credit_limit) fit.grace_nonneg fit.limits)

pub charged :
    (seller : ℕ) (a : Account) (d : ℤ) (db : Db)
    → select (owns seller) db.accounts ≡ some a
    → select (owns seller) (update (is_account seller a.id) (add_balance d) db.accounts)
      ≡ some (add_balance d a)
charged seller a d db found =
    select-update (is_account seller a.id) (owns seller) (add_balance d) (λ x. refl) db.accounts
    ∙ rw found (ground (arith, select-holds (owns seller) a db.accounts found))

-- A Debit that succeeds lowers the seller's balance by the amount, and not below minus the sum
-- of grace amount and credit limit, where the numbers involved fit an int64 and that sum is not
-- negative.
pub debit_floor :
    (fresh seller : ℕ) (a : Account) (amount : ℤ) (ref : Ref) (reason actor : String) (db : Db)
    → IsRepresentable a
    → IsInt64 amount
    → IsInt64 (a.balance -ℤ amount)
    → select (owns seller) db.accounts ≡ some a
    → (debit_account fresh seller amount ref reason actor db).0 ≡ ok tt
    → (b : Account) × (select
          (owns seller)
          (debit_account fresh seller amount ref reason actor db).1.accounts
        ≡ some b)
      × (b.balance ≡ a.balance -ℤ amount)
      × (neg (a.grace_amount +ℤ a.credit_limit) ≤ℤ b.balance)
debit_floor fresh seller a amount ref reason actor db fit small lower found done =
    let (above, positive, effect) =
      debit_effect fresh seller a amount ref reason actor db found done in
    let there : select (owns seller)
          (debit_account fresh seller amount ref reason actor db).1.accounts
        ≡ some (add_balance (wrap (neg amount)) a) =
      rw effect (charged seller a (wrap (neg amount)) db found) in
    let balance : a.balance +ℤ wrap (neg amount) ≡ a.balance -ℤ amount =
      rw (wrap-neg amount (ltb_ℤ→pos amount positive) small) (omega int_laws) in
    let floor : neg (a.grace_amount +ℤ a.credit_limit) ≤ℤ a.balance +ℤ wrap (neg amount) =
      rw (balance, ← grace_floor_exact a fit, ← wrap_of_IsInt64 (a.balance -ℤ amount) lower)
        (ltb_ℤ→≤ (wrap (a.balance -ℤ amount)) (grace_floor a) above) in
    (add_balance (wrap (neg amount)) a, there, balance, floor)
