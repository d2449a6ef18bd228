-- ===== src/Wallet/Breaks.antt =====
-- Two ways in which backend/internal/wallet/service_impl.go leaves the tables inconsistent: Credit
-- under a reference that is posted, and Reserve under the reference of a resolved hold.
use pikship.Prelude.{
  ℕ, String, ◌≡◌, refl, sym, ap, ◌∙◌, inl, inr, true, false, some, arith, ◌==◌, ==-self,
  Option-cases,
}
use mathlib.Core.Path.{subst}
use pikship.Prelude.Int.{ℤ, pos, ◌+ℤ◌, ltb_ℤ}
use pikship.Prelude.Table.{select, update, any, sum-update_same}
use pikship.Prelude.Tx.{ok, is_ok}
use pikship.Wallet.Rows.{credit, Ref, Account, Hold, Db}
use pikship.Wallet.Repo.{
  is_active, owns, is_account, same_event, has_ref, conflicts, set_id, add_hold_total, add_balance,
  get_account_for_update, insert_ledger_entry, update_balance, update_hold_total,
  insert_or_get_hold, take_over_hold,
}
use pikship.Wallet.Service.{credit_account, reserve}
use pikship.Wallet.Effects.{with_event, credit_missing, reserve_missing}
use pikship.Wallet.Totals.{
  only_if, active_of, held_total, active_total, balance_total, posted_total, balance_total-add,
  held_total-add,
}
use pikship.Wallet.Consistent.{IsConsistent}
use pikship.Wallet.Postings.{one_owned}

credit_again :
    (fresh seller : ℕ) (a : Account) (amount : ℤ) (ref : Ref) (reason actor : String) (db : Db)
    → select (owns seller) db.accounts ≡ some a
    → any (same_event ref credit) db.ledger ≡ true
    → (credit_account fresh seller amount ref reason actor db).0 ≡ ok tt
    → (ltb_ℤ (pos 0) amount ≡ true)
      × ((credit_account fresh seller amount ref reason actor db).1 ≡ record db {
        accounts = update (is_account seller a.id) (add_balance amount) db.accounts;
      })
unfolding credit_account get_account_for_update insert_ledger_entry update_balance
credit_again fresh seller a amount ref reason actor db found posted done = ground arith

grown : (x y d : ℤ) → ltb_ℤ (pos 0) d ≡ true → x ≡ y → x +ℤ d ≡ y → ⊥
unfolding ◌+ℤ◌
grown x y d h e f = ground arith

here : (w : ℕ) (x : ℤ) → only_if (w == w) x ≡ x
here w x = rw (==-self w) refl

pub credited :
    (seller : ℕ) (a : Account) (amount : ℤ) (db : Db)
    → IsConsistent db
    → select (owns seller) db.accounts ≡ some a
    → balance_total a.id (update (is_account seller a.id) (add_balance amount) db.accounts)
      ≡ balance_total a.id db.accounts +ℤ amount
credited seller a amount db c found =
    balance_total-add seller a.id db.accounts (one_owned seller a db c found) a.id amount
    ∙ ap (λ (x : ℤ). balance_total a.id db.accounts +ℤ x) (here a.id amount)

-- A Credit that succeeds although its reference already has a credit adds its amount to the
-- balance of the seller's account and leaves the ledger as it is, so that consistent tables
-- become inconsistent.
pub credit_replay_breaks :
    (fresh seller : ℕ) (amount : ℤ) (ref : Ref) (reason actor : String) (db : Db)
    → IsConsistent db
    → any (same_event ref credit) db.ledger ≡ true
    → (credit_account fresh seller amount ref reason actor db).0 ≡ ok tt
    → let t = (credit_account fresh seller amount ref reason actor db).1 in
      (a : Account) × (select (owns seller) db.accounts ≡ some a)
      × (balance_total a.id t.accounts ≡ balance_total a.id db.accounts +ℤ amount)
      × (t.ledger ≡ db.ledger)
      × (¬ IsConsistent t)
credit_replay_breaks fresh seller amount ref reason actor db c posted done =
    elim (Option-cases (select (owns seller) db.accounts)) [
      | inl gone ↦
          absurd (ground (arith, credit_missing fresh seller amount ref reason actor db gone))
      | inr (a, found) ↦
          let (positive, effect) =
            credit_again fresh seller a amount ref reason actor db found posted done in
          let moved = credited seller a amount db c found in
          (
            a,
            found,
            rw effect moved,
            rw effect refl,
            λ broken.
                let after = subst IsConsistent effect broken in
                grown (balance_total a.id db.accounts) (posted_total a.id db.ledger) amount positive
                  (c.in_books a.id) (sym moved ∙ after.in_books a.id),
          )
    ]

reserve_again :
    (fresh now seller : ℕ) (a : Account) (old : Hold) (amount : ℤ) (ref : Ref) (ttl : ℕ) (db : Db)
    → select (owns seller) db.accounts ≡ some a
    → select (has_ref ref) db.holds ≡ some old
    → is_active old.status ≡ false
    → is_ok (reserve fresh now seller amount ref ttl db).0 ≡ true
    → (ltb_ℤ (pos 0) amount ≡ true)
      × ((reserve fresh now seller amount ref ttl db).1
          ≡ with_event seller amount fresh (record db {
            accounts = update (is_account seller a.id) (add_hold_total amount) db.accounts;
            holds = update (conflicts seller ref) (set_id fresh) db.holds;
          }))
unfolding reserve get_account_for_update insert_or_get_hold take_over_hold update_hold_total
reserve_again fresh now seller a old amount ref ttl db found there stale done =
    ground (arith, ==-self fresh)

active_total-set_id :
    (w fresh seller : ℕ) (ref : Ref) (db : Db)
    → active_total w (update (conflicts seller ref) (set_id fresh) db.holds)
      ≡ active_total w db.holds
unfolding active_total
active_total-set_id w fresh seller ref db =
    sum-update_same (active_of w) (conflicts seller ref) (set_id fresh) (λ h hit. refl) db.holds

-- A Reserve that succeeds under the reference of a hold that is confirmed, released or expired
-- adds its amount to the hold total of the seller's account and leaves the sum of its active
-- holds as it is, so that consistent tables become inconsistent.
pub reserve_stale_breaks :
    (fresh now seller : ℕ) (old : Hold) (amount : ℤ) (ref : Ref) (ttl : ℕ) (db : Db)
    → IsConsistent db
    → select (has_ref ref) db.holds ≡ some old
    → is_active old.status ≡ false
    → is_ok (reserve fresh now seller amount ref ttl db).0 ≡ true
    → let t = (reserve fresh now seller amount ref ttl db).1 in
      (a : Account) × (select (owns seller) db.accounts ≡ some a)
      × (held_total a.id t.accounts ≡ held_total a.id db.accounts +ℤ amount)
      × (active_total a.id t.holds ≡ active_total a.id db.holds)
      × (¬ IsConsistent t)
reserve_stale_breaks fresh now seller old amount ref ttl db c there stale done =
    elim (Option-cases (select (owns seller) db.accounts)) [
      | inl gone ↦ absurd (ground (arith, reserve_missing fresh now seller amount ref ttl db gone))
      | inr (a, found) ↦
          let (positive, effect) =
            reserve_again fresh now seller a old amount ref ttl db found there stale done in
          let moved =
            held_total-add seller a.id db.accounts (one_owned seller a db c found) a.id amount
            ∙ ap (λ (x : ℤ). held_total a.id db.accounts +ℤ x) (here a.id amount) in
          let holds = active_total-set_id a.id fresh seller ref db in
          (
            a,
            found,
            rw effect moved,
            rw effect holds,
            λ broken.
                let after = subst IsConsistent effect broken in
                grown (held_total a.id db.accounts) (active_total a.id db.holds) amount positive
                  (c.held a.id) (sym moved ∙ after.held a.id ∙ holds),
          )
    ]
