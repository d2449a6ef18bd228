-- ===== src/Prelude/Tx.antt =====
-- Errors and transactions. A transaction's body reads and writes the tables `Db`; an error
-- rolls the tables back.
use mathlib.Core.Path.{◌≡◌, ap}
use mathlib.Core.Option.{Option, none, some}
use Prim.Native.Nat.{ℕ}
use mathlib.Core.Bool.{Bool, true, false}
use pikship.Prelude.Tests.{◌==◌, if◌then◌else◌}

-- The sentinels of core/errors.go; `limit_reached` is limits.ErrLimitExceeded, `plain` is an error that wraps none of them, and `database`
-- an error that Postgres raises.
pub data Error : Type 0 where
  not_found invalid_argument conflict permission_denied unavailable internal seller_scope : Error
  limit_reached : Error
  plain database : Error

pub data Result (A : Type 0) : Type 0 where
  ok : A → Result A
  err : Error → Result A

abbrev pub is_ok : {A : Type 0} → Result A → Bool
is_ok (ok _) = true
is_ok (err _) = false

abbrev pub Tx : Type 0 → Type 0 → Type 0
Tx Db A = Db → Result (A × Db)

module _ {Db : Type 0} where
  infixl 5 ◌>>=◌ ◌>>◌
  abbrev pub ◌>>=◌ : {A B : Type 0} → Tx Db A → (A → Tx Db B) → Tx Db B
  ◌>>=◌ m f s = elim (m s) [ ok (a, t) ↦ f a t | err e ↦ err e ]

  abbrev pub ◌>>◌ : {A B : Type 0} → Tx Db A → Tx Db B → Tx Db B
  ◌>>◌ m k s = elim (m s) [ ok (_, t) ↦ k t | err e ↦ err e ]

  abbrev pub pure : {A : Type 0} → A → Tx Db A
  pure a s = ok (a, s)

  abbrev pub fail : {A : Type 0} → Error → Tx Db A
  fail e s = err e

  -- `if c { return e }`.
  abbrev pub fail_if : Bool → Error → Tx Db (Unit {0})
  fail_if c e s = if c then err e else ok (tt, s)

  -- The row that a query found; `pgx.ErrNoRows` becomes `e`.
  abbrev pub or_fail : {A : Type 0} → Option A → Error → Tx Db A
  or_fail none e s = err e
  or_fail (some a) e s = ok (a, s)

  abbrev pub gets : {A : Type 0} → (Db → A) → Tx Db A
  gets f s = ok (f s, s)

  abbrev pub modify : (Db → Db) → Tx Db (Unit {0})
  modify f s = ok (tt, f s)

  -- What a call leaves behind: its answer and the tables.
  abbrev pub settle : {A : Type 0} → Db → Result (A × Db) → Result A × Db
  settle s (ok (a, t)) = (ok a, t)
  settle s (err e) = (err e, s)

  -- `dbtx.WithSellerTx`: commit on success, roll back on an error.
  abbrev pub with_seller_tx : {A : Type 0} → ℕ → Tx Db A → Db → Result A × Db
  with_seller_tx seller body s = settle s (if seller == 0 then err seller_scope else body s)

module _ {Db : Type 0} {A B : Type 0} where
  -- A transaction whose first part succeeded, or failed.
  pub >>-ok : (m : Tx Db A) (k : Tx Db B) (s t : Db) (a : A) → m s ≡ ok (a, t) → (m >> k) s ≡ k t
  >>-ok m k s t a h =
      ap
        (λ (r : Result (A × Db)). elim r as (λ _. Result (B × Db)) [
          | ok (_, u) ↦ k u
          | err e ↦ err e
        ])
        h

  pub >>-err : (m : Tx Db A) (k : Tx Db B) (s : Db) (e : Error) → m s ≡ err e → (m >> k) s ≡ err e
  >>-err m k s e h =
      ap
        (λ (r : Result (A × Db)). elim r as (λ _. Result (B × Db)) [
          | ok (_, u) ↦ k u
          | err e ↦ err e
        ])
        h

module _ {Db : Type 0} {A : Type 0} where
  pub with_seller_tx-runs :
      (seller : ℕ) (body : Tx Db A) (s : Db) (r : Result (A × Db))
      → (seller == 0) ≡ false
      → body s ≡ r
      → with_seller_tx seller body s ≡ settle s r
  with_seller_tx-runs seller body s r scoped h = rw scoped (ap (settle s) h)
