-- ===== src/Wallet/Postings.antt =====
-- The invariant of the wallet's tables under a posting to the ledger and under a new hold.
use pikship.Prelude.{
  ℕ, ◌≤◌, ◌<◌, ◌≡◌, refl, ◌∙◌, inl, inr, true, some, ◌∷◌, arith, ◌==◌, Bool-cases,
}
use pikship.Prelude.Int.{ℤ, int_laws}
use pikship.Prelude.Table.{select, count, count-pos, select-holds, any→count, count-update}
use pikship.Wallet.Rows.{HoldStatus, Account, Hold, LedgerEntry, Db}
use pikship.Wallet.Repo.{owns, is_account, is_hold, add_balance, add_hold_total}
use pikship.Wallet.Effects.{posted, reserved, IsNewHold}
use mathlib.Core.Path.{subst}
use pikship.Wallet.Consistent.{IsAmount, IsConsistent}
use pikship.Wallet.Totals.{
  signed, active_total, posted_total, held_total-add, balance_total-add, held_total-add_balance,
  balance_total-add_hold,
}

same_id :
    (s i : ℕ) (h x : Hold) → is_hold s i h ≡ true → is_hold s i x ≡ true → (x.id == h.id) ≡ true
same_id s i h x p q = ground arith

module _ (seller : ℕ) (a : Account) (db : Db) (c : IsConsistent db)
    (found : select (owns seller) db.accounts ≡ some a) where
  own_account : is_account seller a.id a ≡ true
  own_account = ground (arith, select-holds (owns seller) a db.accounts found)

  pub one_owned : count (is_account seller a.id) db.accounts ≡ 1
  one_owned =
      let some_one : 0 < count (is_account seller a.id) db.accounts =
        count-pos (is_account seller a.id) (owns seller) a db.accounts found own_account in
      omega (arith, c.one_account seller a.id)

  -- Posting an entry of a new reference keeps the invariant.
  pub posted-IsConsistent :
      (e : LedgerEntry) (delta : ℤ)
      → e.wallet_id ≡ a.id
      → signed e.direction e.amount ≡ delta
      → IsConsistent (posted seller a e delta db)
  unfolding posted_total
  posted-IsConsistent e delta same cash = record {
    one_account = λ s w.
        rw
          (count-update (is_account seller a.id) (is_account s w) (add_balance delta) (λ x. refl)
            db.accounts)
          (c.one_account s w);
    one_hold = c.one_hold;
    owned = λ s i g e'.
        rw
          (count-update (is_account seller a.id) (is_account s g.wallet_id) (add_balance delta)
            (λ x. refl) db.accounts)
          (c.owned s i g e');
    amounts = c.amounts;
    held = λ w. held_total-add_balance seller a.id delta db.accounts w ∙ c.held w;
    in_books = λ w.
        balance_total-add seller a.id db.accounts one_owned w delta
        ∙ (rw (c.in_books w, same, cash) (omega int_laws));
  }

  one_hold_more :
      (h : Hold) → IsNewHold h.id db → (s i : ℕ) → count (is_hold s i) (h ∷ db.holds) ≤ 1
  one_hold_more h new s i = elim (Bool-cases (is_hold s i h)) [
    | inl hit ↦
        let none_yet : count (is_hold s i) db.holds ≡ 0 =
          any→count (λ (x : Hold). x.id == h.id) (is_hold s i) (λ x e. same_id s i h x hit e)
            db.holds new in
        rw hit (omega arith)
    | inr miss ↦ rw miss (omega (arith, c.one_hold s i))
  ]

  owned_more :
      (h : Hold)
      → h.wallet_id ≡ a.id
      → h.seller_id ≡ seller
      → (s i : ℕ) (g : Hold) → select (is_hold s i) (h ∷ db.holds) ≡ some g
      → count (is_account s g.wallet_id) db.accounts ≡ 1
  owned_more h same whose s i g e = elim (Bool-cases (is_hold s i h)) [
    | inl hit ↦
        let wallet : g.wallet_id ≡ a.id = ground arith in
        let scope : s ≡ seller = ground arith in rw (wallet, scope) one_owned
    | inr miss ↦ c.owned s i g (ground arith)
  ]

  amounts_more :
      (h : Hold)
      → IsAmount h.amount
      → (s i : ℕ) (g : Hold) → select (is_hold s i) (h ∷ db.holds) ≡ some g
      → IsAmount g.amount
  amounts_more h amount s i g e = elim (Bool-cases (is_hold s i h)) [
    | inl hit ↦
        (let same : h ≡ g = ground arith in subst (λ (x : Hold). IsAmount x.amount) same amount)
    | inr miss ↦ c.amounts s i g (ground arith)
  ]

  -- A new hold on the seller's account keeps the invariant.
  pub reserved-IsConsistent :
      (h : Hold)
      → h.wallet_id ≡ a.id
      → h.seller_id ≡ seller
      → h.status ≡ HoldStatus.active
      → IsAmount h.amount
      → IsNewHold h.id db
      → IsConsistent (reserved seller a h h.amount db)
  unfolding active_total
  reserved-IsConsistent h same whose live amount new = record {
    one_account = λ s w.
        rw
          (count-update (is_account seller a.id) (is_account s w) (add_hold_total h.amount)
            (λ x. refl) db.accounts)
          (c.one_account s w);
    one_hold = one_hold_more h new;
    owned = λ s i g e.
        rw
          (count-update (is_account seller a.id) (is_account s g.wallet_id)
            (add_hold_total h.amount) (λ x. refl) db.accounts)
          (owned_more h same whose s i g e);
    amounts = amounts_more h amount;
    held = λ w.
        held_total-add seller a.id db.accounts one_owned w h.amount
        ∙ (rw (c.held w, same, live) (omega int_laws));
    in_books = λ w. balance_total-add_hold seller a.id h.amount db.accounts w ∙ c.in_books w;
  }
