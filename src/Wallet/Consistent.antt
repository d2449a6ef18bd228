-- ===== src/Wallet/Consistent.antt =====
-- The invariant of the wallet's tables, and that the effects of Confirm, Release, Reserve, Credit
-- and Debit (backend/internal/wallet/service_impl.go) keep it.
use pikship.Prelude.{
  ℕ, ◌≤◌, ◌≡◌, refl, sym, ◌∙◌, ap, List, Bool, true, false, Option, none, some, ◌==◌, String,
}
use pikship.Prelude.Int.{ℤ, pos, neg, ◌+ℤ◌, ◌-ℤ◌, ◌≤ℤ◌, int_laws}
use pikship.Prelude.Int64.{IsInt64, wrap, wrap-neg}
use pikship.Prelude.Table.{select, update, count, count-update, select-update_field}
use pikship.Wallet.Rows.{HoldStatus, Ref, Account, Hold, Db}
use pikship.Wallet.Repo.{is_active, is_account, is_hold, add_balance, add_hold_total, resolve}
use pikship.Wallet.Effects.{confirmed, released}
use pikship.Wallet.Totals.{
  only_if, held_total, balance_total, active_total, posted_total, held_total-add, balance_total-add,
  held_total-add_balance, balance_total-add_hold, active_total-resolve,
}

-- An amount that a BIGINT column with CHECK (amount_minor > 0) holds.
pub record IsAmount (z : ℤ) : Type 0 where
  pub positive : pos 1 ≤ℤ z
  pub in_range : IsInt64 z

pub record IsConsistent (db : Db) : Type 0 where
  -- Ids are primary keys.
  pub one_account : (s w : ℕ) → count (is_account s w) db.accounts ≤ 1
  pub one_hold : (s i : ℕ) → count (is_hold s i) db.holds ≤ 1
  -- A hold is on an account of its seller, and its amount has passed the column's check.
  pub owned :
      (s i : ℕ) (h : Hold)
      → select (is_hold s i) db.holds ≡ some h
      → count (is_account s h.wallet_id) db.accounts ≡ 1
  pub amounts : (s i : ℕ) (h : Hold) → select (is_hold s i) db.holds ≡ some h → IsAmount h.amount
  -- A wallet's hold total is the sum of its active holds, its balance what its ledger comes to.
  pub held : (w : ℕ) → held_total w db.accounts ≡ active_total w db.holds
  pub in_books : (w : ℕ) → balance_total w db.accounts ≡ posted_total w db.ledger

only_if-neg : (b : Bool) (x : ℤ) → only_if b (neg x) ≡ neg (only_if b x)
unfolding neg
only_if-neg true x = refl
only_if-neg false x = refl

minus : (x y : ℤ) → x +ℤ neg y ≡ x -ℤ y
minus x y = omega int_laws

-- What resolving holds leaves alone.
module _ (p : Hold → Bool) (status : HoldStatus) (entry : Option ℕ) (db : Db) where
  abbrev holds_after : List Hold
  holds_after = update p (resolve status entry) db.holds

  keeps_one_hold : IsConsistent db → (s i : ℕ) → count (is_hold s i) holds_after ≤ 1
  keeps_one_hold c s i =
      rw (count-update p (is_hold s i) (resolve status entry) (λ x. refl) db.holds) (c.one_hold s i)

  resolved_wallet :
      (s i : ℕ) (g : Hold)
      → select (is_hold s i) holds_after ≡ some g
      → (h : Hold) × (select (is_hold s i) db.holds ≡ some h) × (g.wallet_id ≡ h.wallet_id)
  resolved_wallet s i g e =
      select-update_field (λ (x : Hold). x.wallet_id) p (is_hold s i) (resolve status entry)
        (λ x. refl) (λ x. refl) g db.holds e

  keeps_amounts :
      IsConsistent db
      → (s i : ℕ) (g : Hold) → select (is_hold s i) holds_after ≡ some g
      → IsAmount g.amount
  keeps_amounts c s i g e =
      let (g', e', k) =
        select-update_field (λ (x : Hold). x.amount) p (is_hold s i) (resolve status entry)
          (λ x. refl) (λ x. refl) g db.holds e in
      rw k (c.amounts s i g' e')

module _ (fresh seller hold : ℕ) (h : Hold) (ref : Ref) (reason actor : String) (db : Db)
    (c : IsConsistent db) (found : select (is_hold seller hold) db.holds ≡ some h)
    (same : h.id ≡ hold) (live : h.status ≡ HoldStatus.active) where
  cash : wrap (neg h.amount) ≡ neg h.amount
  cash = let a = c.amounts seller hold h found in wrap-neg h.amount a.positive a.in_range

  one : count (is_account seller h.wallet_id) db.accounts ≡ 1
  one = c.owned seller hold h found

  found_again : select (is_hold seller h.id) db.holds ≡ some h
  found_again = simp same found

  active_after :
      (w : ℕ) (status : HoldStatus) (e : Option ℕ)
      → is_active status ≡ false
      → active_total w (update (is_hold seller h.id) (resolve status e) db.holds)
        ≡ active_total w db.holds -ℤ only_if (h.wallet_id == w) h.amount
  active_after w status e done =
      active_total-resolve seller h.id w h status e db.holds found_again (c.one_hold seller h.id)
        live done

  held_after :
      (w : ℕ)
      → held_total w db.accounts +ℤ only_if (h.wallet_id == w) (wrap (neg h.amount))
        ≡ active_total w db.holds -ℤ only_if (h.wallet_id == w) h.amount
  held_after w = rw (cash, c.held w, only_if-neg) (minus _ _)

  abbrev mine : Account → Bool
  mine = is_account seller h.wallet_id

  abbrev hold_change : Account → Account
  hold_change = add_hold_total (wrap (neg h.amount))

  abbrev balance_change : Account → Account
  balance_change = add_balance (wrap (neg h.amount))

  -- Releasing an active hold keeps the invariant.
  pub released-IsConsistent : IsConsistent (released seller h db)
  released-IsConsistent = record {
    one_account = λ s w.
        rw (count-update mine (is_account s w) hold_change (λ a. refl) db.accounts)
          (c.one_account s w);
    one_hold = keeps_one_hold (is_hold seller h.id) HoldStatus.released none db c;
    owned = λ s i g e.
        let (g', e', k) =
          resolved_wallet (is_hold seller h.id) HoldStatus.released none db s i g e in
        rw (count-update mine (is_account s g.wallet_id) hold_change (λ a. refl) db.accounts, k)
          (c.owned s i g' e');
    amounts = keeps_amounts (is_hold seller h.id) HoldStatus.released none db c;
    held = λ w.
        held_total-add seller h.wallet_id db.accounts one w (wrap (neg h.amount))
        ∙ held_after w
        ∙ sym (active_after w HoldStatus.released none refl);
    in_books = λ w.
        balance_total-add_hold seller h.wallet_id (wrap (neg h.amount)) db.accounts w
        ∙ c.in_books w;
  }

  one_confirmed : count mine (update mine balance_change db.accounts) ≡ 1
  one_confirmed = rw (count-update mine mine balance_change (λ a. refl) db.accounts) one

  count_confirmed :
      (s w : ℕ)
      → count (is_account s w) (update mine hold_change (update mine balance_change db.accounts))
        ≡ count (is_account s w) db.accounts
  count_confirmed s w =
      count-update mine (is_account s w) hold_change (λ a. refl)
        (update mine balance_change db.accounts)
      ∙ count-update mine (is_account s w) balance_change (λ a. refl) db.accounts

  in_books_after :
      (w : ℕ)
      → balance_total w db.accounts +ℤ only_if (h.wallet_id == w) (wrap (neg h.amount))
        ≡ only_if (h.wallet_id == w) (neg h.amount) +ℤ posted_total w db.ledger
  in_books_after w = rw (cash, c.in_books w) (omega int_laws)

  -- Confirming an active hold keeps the invariant.
  pub confirmed-IsConsistent : IsConsistent (confirmed fresh seller h ref reason actor db)
  unfolding posted_total
  confirmed-IsConsistent = record {
    one_account = λ s w. rw (count_confirmed s w) (c.one_account s w);
    one_hold = keeps_one_hold (is_hold seller h.id) HoldStatus.confirmed (some fresh) db c;
    owned = λ s i g e.
        let (g', e', k) =
          resolved_wallet (is_hold seller h.id) HoldStatus.confirmed (some fresh) db s i g e in
        rw (count_confirmed s g.wallet_id, k) (c.owned s i g' e');
    amounts = keeps_amounts (is_hold seller h.id) HoldStatus.confirmed (some fresh) db c;
    held = λ w.
        held_total-add seller h.wallet_id (update mine balance_change db.accounts) one_confirmed w
          (wrap (neg h.amount))
        ∙ ap (λ (x : ℤ). x +ℤ only_if (h.wallet_id == w) (wrap (neg h.amount)))
            (held_total-add_balance seller h.wallet_id (wrap (neg h.amount)) db.accounts w)
        ∙ held_after w
        ∙ sym (active_after w HoldStatus.confirmed (some fresh) refl);
    in_books = λ w.
        balance_total-add_hold seller h.wallet_id (wrap (neg h.amount))
          (update mine balance_change db.accounts) w
        ∙ balance_total-add seller h.wallet_id db.accounts one w (wrap (neg h.amount))
        ∙ in_books_after w;
  }
