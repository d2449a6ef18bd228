-- ===== src/Wallet/Totals.antt =====
-- Sums over the tables of the wallet, and how the updates of backend/internal/wallet/repo.go move
-- them.
use pikship.Prelude.{
  ℕ, ◌≤◌, ◌≡◌, refl, inl, inr, Bool, true, false, Option, List, some, arith, ◌==◌, if◌then◌else◌,
  Bool-cases,
}
use pikship.Prelude.Int.{ℤ, pos, neg, ◌+ℤ◌, ◌-ℤ◌, int_laws, take_off}
use pikship.Prelude.Table.{
  select, update, count, sum_by, sum-update_add, sum-update_one, sum-update_same,
}
use pikship.Wallet.Rows.{HoldStatus, Direction, credit, debit, Account, Hold, LedgerEntry}
use pikship.Wallet.Repo.{is_active, is_account, is_hold, add_balance, add_hold_total, resolve}

abbrev pub only_if : Bool → ℤ → ℤ
only_if b x = if b then x else pos 0

abbrev pub held_of : ℕ → Account → ℤ
held_of w a = only_if (a.id == w) a.hold_total

abbrev pub balance_of : ℕ → Account → ℤ
balance_of w a = only_if (a.id == w) a.balance

abbrev pub active_of : ℕ → Hold → ℤ
active_of w h = only_if (h.wallet_id == w) (only_if (is_active h.status) h.amount)

abbrev pub signed : Direction → ℤ → ℤ
signed credit x = x
signed debit x = neg x

abbrev pub posted_of : ℕ → LedgerEntry → ℤ
posted_of w e = only_if (e.wallet_id == w) (signed e.direction e.amount)

-- The hold total and the balance of the accounts with id `w`.
unfoldable pub held_total : ℕ → List Account → ℤ
held_total w = sum_by (held_of w)

unfoldable pub balance_total : ℕ → List Account → ℤ
balance_total w = sum_by (balance_of w)

-- The active holds on `w`, and the credits less the debits posted to it.
unfoldable pub active_total : ℕ → List Hold → ℤ
active_total w = sum_by (active_of w)

unfoldable pub posted_total : ℕ → List LedgerEntry → ℤ
posted_total w = sum_by (posted_of w)

add_step :
    (v w : ℕ) (x d : ℤ) (i : ℕ)
    → i ≡ v
    → only_if (i == w) (x +ℤ d) ≡ only_if (i == w) x +ℤ only_if (v == w) d
add_step v w x d i e = elim (Bool-cases (i == w)) [
  | inl here ↦ rw (here, ← e) (rw here refl)
  | inr other ↦ rw (other, ← e) (rw other (omega int_laws))
]

account_id : (s v : ℕ) (a : Account) → is_account s v a ≡ true → a.id ≡ v
account_id s v a h = ground arith

module _ (s v : ℕ) (accounts : List Account) (one : count (is_account s v) accounts ≡ 1) where
  pub held_total-add :
      (w : ℕ) (d : ℤ)
      → held_total w (update (is_account s v) (add_hold_total d) accounts)
        ≡ held_total w accounts +ℤ only_if (v == w) d
  unfolding held_total
  held_total-add w d =
      sum-update_add (held_of w) (is_account s v) (add_hold_total d) (only_if (v == w) d)
        (λ a hit. add_step v w a.hold_total d a.id (account_id s v a hit)) accounts one

  pub balance_total-add :
      (w : ℕ) (d : ℤ)
      → balance_total w (update (is_account s v) (add_balance d) accounts)
        ≡ balance_total w accounts +ℤ only_if (v == w) d
  unfolding balance_total
  balance_total-add w d =
      sum-update_add (balance_of w) (is_account s v) (add_balance d) (only_if (v == w) d)
        (λ a hit. add_step v w a.balance d a.id (account_id s v a hit)) accounts one

module _ (s v : ℕ) (d : ℤ) (accounts : List Account) where
  pub held_total-add_balance :
      (w : ℕ)
      → held_total w (update (is_account s v) (add_balance d) accounts) ≡ held_total w accounts
  unfolding held_total
  held_total-add_balance w =
      sum-update_same (held_of w) (is_account s v) (add_balance d) (λ a hit. refl) accounts

  pub balance_total-add_hold :
      (w : ℕ)
      → balance_total w (update (is_account s v) (add_hold_total d) accounts)
        ≡ balance_total w accounts
  unfolding balance_total
  balance_total-add_hold w =
      sum-update_same (balance_of w) (is_account s v) (add_hold_total d) (λ a hit. refl) accounts

-- Resolving an active hold takes its amount off the active holds of its wallet.
pub active_total-resolve :
    (s i w : ℕ) (h : Hold) (status : HoldStatus) (entry : Option ℕ) (holds : List Hold)
    → select (is_hold s i) holds ≡ some h
    → count (is_hold s i) holds ≤ 1
    → h.status ≡ HoldStatus.active
    → is_active status ≡ false
    → active_total w (update (is_hold s i) (resolve status entry) holds)
      ≡ active_total w holds -ℤ only_if (h.wallet_id == w) h.amount
unfolding active_total
active_total-resolve s i w h status entry holds found one live done =
    let moved =
      sum-update_one (active_of w) (is_hold s i) (resolve status entry) h holds found one in
    let before : active_of w h ≡ only_if (h.wallet_id == w) h.amount = ground arith in
    let after : active_of w (resolve status entry h) ≡ pos 0 = ground arith in
    rw before at (take_off _ _ _ _ moved after)
