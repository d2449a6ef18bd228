-- ===== src/Prelude/Table.antt =====
-- Tables as lists of rows: SELECT of the first match, UPDATE of all matches, and sums over rows.
use Prim.Native.Nat.{ℕ, ◌+◌, ◌≤◌, ◌<◌}
use mathlib.Core.Path.{◌≡◌, refl}
use mathlib.Core.Logic.{inl, inr}
use mathlib.Core.Bool.{Bool, true, false, ◌||◌}
use mathlib.Core.Option.{Option, none, some}
use mathlib.Core.List.{List, [], ◌∷◌, ◌++◌}
use native.Mathlib.Omega.{arith}
use pikship.Prelude.Tests.{if◌then◌else◌, Bool-cases}
use pikship.Prelude.Int.{ℤ, pos, ◌+ℤ◌, int_laws}

module _ {A : Type 0} where
  -- SELECT … WHERE p, of which `QueryRow` reads the first row.
  abbrev pub select : (A → Bool) → List A → Option A
  select p [] = none
  select p (x ∷ xs) = if p x then some x else select p xs

  -- UPDATE … SET f WHERE p.
  abbrev pub update : (A → Bool) → (A → A) → List A → List A
  update p f [] = []
  update p f (x ∷ xs) = (if p x then f x else x) ∷ update p f xs

  abbrev pub any : (A → Bool) → List A → Bool
  any p [] = false
  any p (x ∷ xs) = if p x then true else any p xs

  -- The number of rows that match.
  abbrev pub count : (A → Bool) → List A → ℕ
  count p [] = 0
  count p (x ∷ xs) = (if p x then 1 else 0) + count p xs

  abbrev pub sum_by : (A → ℤ) → List A → ℤ
  sum_by w [] = pos 0
  sum_by w (x ∷ xs) = w x +ℤ sum_by w xs

  pub any→count :
      (p q : A → Bool)
      → ((x : A) → q x ≡ true → p x ≡ true)
      → (xs : List A) → any p xs ≡ false
      → count q xs ≡ 0
  any→count p q imp [] h = refl
  any→count p q imp (x ∷ xs) h = ground (arith, imp x, any→count p q imp xs)

  pub count-update :
      (p q : A → Bool) (f : A → A)
      → ((x : A) → q (f x) ≡ q x)
      → (xs : List A) → count q (update p f xs) ≡ count q xs
  count-update p q f keep [] = refl
  count-update p q f keep (x ∷ xs) = ground (arith, keep x, count-update p q f keep xs)

  pub any-update :
      (p q : A → Bool) (f : A → A)
      → ((x : A) → q (f x) ≡ q x)
      → (xs : List A) → any q (update p f xs) ≡ any q xs
  any-update p q f keep [] = refl
  any-update p q f keep (x ∷ xs) = ground (arith, keep x, any-update p q f keep xs)

  -- `f` where `p` holds.
  abbrev pub apply_if : (A → Bool) → (A → A) → A → A
  apply_if p f x = if p x then f x else x

  abbrev pub map_some : (A → A) → Option A → Option A
  map_some f none = none
  map_some f (some x) = some (f x)

  pub select-update :
      (p q : A → Bool) (f : A → A)
      → ((x : A) → q (f x) ≡ q x)
      → (xs : List A) → select q (update p f xs) ≡ map_some (apply_if p f) (select q xs)
  select-update p q f keep [] = refl
  select-update p q f keep (x ∷ xs) = ground (arith, keep x, select-update p q f keep xs)

  pub select-holds : (p : A → Bool) (x : A) (xs : List A) → select p xs ≡ some x → p x ≡ true
  select-holds p x [] h = cc
  select-holds p x (y ∷ ys) h = ground (arith, select-holds p x ys)

  pub any-select :
      (p q : A → Bool) (x : A) (xs : List A) → any p xs ≡ false → select q xs ≡ some x → p x ≡ false
  any-select p q x [] none_such h = cc
  any-select p q x (y ∷ ys) none_such h = ground (arith, any-select p q x ys)

  pub count-pos :
      (p q : A → Bool) (x : A) (xs : List A) → select q xs ≡ some x → p x ≡ true → 0 < count p xs
  count-pos p q x [] h hit = cc
  count-pos p q x (y ∷ ys) h hit = ground (arith, count-pos p q x ys)

  pub sum-update_same :
      (w : A → ℤ) (p : A → Bool) (f : A → A)
      → ((x : A) → p x ≡ true → w (f x) ≡ w x)
      → (xs : List A) → sum_by w (update p f xs) ≡ sum_by w xs
  sum-update_same w p f keep [] = refl
  sum-update_same w p f keep (x ∷ xs) = ground (arith, keep x, sum-update_same w p f keep xs)

  pub sum-update_none :
      (w : A → ℤ) (p : A → Bool) (f : A → A) (xs : List A)
      → count p xs ≡ 0
      → sum_by w (update p f xs) ≡ sum_by w xs
  sum-update_none w p f [] h = refl
  sum-update_none w p f (x ∷ xs) h = ground (arith, sum-update_none w p f xs)

  -- An update of the one row that matches moves the sum by the change of that row.
  pub sum-update_one :
      (w : A → ℤ) (p : A → Bool) (f : A → A) (x : A) (xs : List A)
      → select p xs ≡ some x
      → count p xs ≤ 1
      → sum_by w (update p f xs) +ℤ w x ≡ sum_by w xs +ℤ w (f x)
  sum-update_one w p f x [] h one = cc
  sum-update_one w p f x (y ∷ ys) h one = elim (Bool-cases (p y)) [
    | inl hit ↦
        let found : y ≡ x = ground arith in
        let others : count p ys ≡ 0 = ground arith in
        rw (hit, sum-update_none w p f ys others, found) (omega int_laws)
    | inr miss ↦
        let rest : sum_by w (update p f ys) +ℤ w x ≡ sum_by w ys +ℤ w (f x) =
          sum-update_one w p f x ys (ground arith) (ground arith) in
        rw miss (grind int_laws)
  ]

  -- The same where the change is the same for each row that could match.
  pub sum-update_add :
      (w : A → ℤ) (p : A → Bool) (f : A → A) (d : ℤ)
      → ((x : A) → p x ≡ true → w (f x) ≡ w x +ℤ d)
      → (xs : List A) → count p xs ≡ 1
      → sum_by w (update p f xs) ≡ sum_by w xs +ℤ d
  sum-update_add w p f d step [] one = absurd (omega arith)
  sum-update_add w p f d step (x ∷ xs) one = elim (Bool-cases (p x)) [
    | inl hit ↦
        let others : count p xs ≡ 0 = ground arith in
        rw (hit, sum-update_none w p f xs others, step x hit) (omega int_laws)
    | inr miss ↦
        let rest : sum_by w (update p f xs) ≡ sum_by w xs +ℤ d =
          sum-update_add w p f d step xs (ground arith) in
        rw (miss, rest) (omega int_laws)
  ]

module _ {A : Type 0} where
  -- The rows that do not match.
  abbrev pub without : (A → Bool) → List A → List A
  without q [] = []
  without q (x ∷ xs) = if q x then without q xs else x ∷ without q xs

  pub without-update :
      (p q : A → Bool) (f : A → A)
      → ((x : A) → p x ≡ true → q x ≡ true)
      → ((x : A) → q (f x) ≡ q x)
      → (xs : List A) → without q (update p f xs) ≡ without q xs
  without-update p q f within keep [] = refl
  without-update p q f within keep (x ∷ xs) =
      ground (arith, within x, keep x, without-update p q f within keep xs)

  pub sum_none :
      (w : A → ℤ) (p : A → Bool)
      → ((x : A) → p x ≡ false → w x ≡ pos 0)
      → (xs : List A) → any p xs ≡ false
      → sum_by w xs ≡ pos 0
  sum_none w p zero [] none_such = refl
  sum_none w p zero (x ∷ xs) none_such =
      let rest : sum_by w xs ≡ pos 0 = sum_none w p zero xs (ground arith) in
      rw (zero x (ground arith), rest) (omega int_laws)

module _ {A B : Type 0} where
  -- A row found after an update is a row found before, up to what the update leaves alone.
  pub select-update_field :
      (k : A → B) (p q : A → Bool) (f : A → A)
      → ((x : A) → k (f x) ≡ k x)
      → ((x : A) → q (f x) ≡ q x)
      → (y : A) (xs : List A) → select q (update p f xs) ≡ some y
      → (x : A) × (select q xs ≡ some x) × (k y ≡ k x)
  select-update_field k p q f same keep y [] h = cc
  select-update_field k p q f same keep y (x ∷ xs) h = elim (Bool-cases (q x)) [
    | inl hit ↦ (x, ground arith, ground (arith, keep x, same x))
    | inr miss ↦
        let rest = select-update_field k p q f same keep y xs (ground (arith, keep x)) in
        (rest.0, rw miss rest.1, rest.2)
  ]

module _ {A : Type 0} where
  pub select→any :
      (p q : A → Bool)
      → ((x : A) → q x ≡ true → p x ≡ true)
      → (x : A) (xs : List A) → select q xs ≡ some x
      → any p xs ≡ true
  select→any p q imp x [] h = cc
  select→any p q imp x (y ∷ ys) h = ground (arith, imp y, select→any p q imp x ys)

  -- A row that is found under a narrower test is the one row of the wider test.
  pub select-widen :
      (p q : A → Bool)
      → ((x : A) → q x ≡ true → p x ≡ true)
      → (x : A) (xs : List A) → count p xs ≤ 1
      → select q xs ≡ some x
      → select p xs ≡ some x
  select-widen p q imp x [] one h = cc
  select-widen p q imp x (y ∷ ys) one h = elim (Bool-cases (q y)) [
    | inl hit ↦ ground (arith, imp y)
    | inr miss ↦ elim (Bool-cases (p y)) [
      | inr other ↦ rw other (select-widen p q imp x ys (ground arith) (ground arith))
      | inl wide ↦
          let found : select q ys ≡ some x = ground arith in
          let some_left = count-pos p q x ys found (imp x (select-holds q x ys found)) in
          absurd (ground arith)
    ]
  ]

module _ {A : Type 0} where
  pub any_of_none : (p : A → Bool) (xs : List A) → select p xs ≡ none → any p xs ≡ false
  any_of_none p [] h = refl
  any_of_none p (x ∷ xs) h = ground (arith, any_of_none p xs)

  pub any-append : (p : A → Bool) (xs ys : List A) → any p (xs ++ ys) ≡ (any p xs || any p ys)
  any-append p [] ys = refl
  any-append p (x ∷ xs) ys = ground (arith, any-append p xs ys)

  pub any-without : (p q : A → Bool) (xs : List A) → any p xs ≡ false → any p (without q xs) ≡ false
  any-without p q [] h = refl
  any-without p q (x ∷ xs) h = ground (arith, any-without p q xs)

  pub any-without_self : (p : A → Bool) (xs : List A) → any p (without p xs) ≡ false
  any-without_self p [] = refl
  any-without_self p (x ∷ xs) = ground (arith, any-without_self p xs)

  -- An update after which no more rows match.
  pub any-update_fewer :
      (p q : A → Bool) (f : A → A)
      → ((x : A) → p (f x) ≡ true → p x ≡ true)
      → (xs : List A) → any p xs ≡ false
      → any p (update q f xs) ≡ false
  any-update_fewer p q f fewer [] h = refl
  any-update_fewer p q f fewer (x ∷ xs) h = ground (arith, fewer x, any-update_fewer p q f fewer xs)
