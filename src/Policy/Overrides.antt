-- ===== src/Policy/Overrides.antt =====
-- The table of overrides (backend/internal/policy/repo.go) and the cache beside it: what a read finds
-- after each write.
use pikship.Prelude.{
  ℕ, String, ◌≡◌, ◌⊎◌, refl, sym, ◌∙◌, inl, inr, true, false, ◌&&◌, Option, none, some, List, [],
  ◌∷◌, arith, ◌==◌, ==-self, str_eq, Bool-cases, ap, ==→≡, str_eq_self, str_eq→≡,
}
use pikship.Prelude.Table.{select, update, any, without}
use pikship.Policy.Cache.{TimedValue, Values, put_seller}
use pikship.Policy.Rows.{
  OverrideRow, Db, is_override, override_value, overwrite, get_seller_override,
  upsert_seller_override, delete_seller_override,
}

value_after_update :
    (row : OverrideRow) (xs : List OverrideRow)
    → any (is_override row.seller_id row.key) xs ≡ true
    → override_value (
        select
          (is_override row.seller_id row.key)
          (update (is_override row.seller_id row.key) (overwrite row) xs))
      ≡ some row.value
value_after_update row [] h = cc
value_after_update row (x ∷ xs) h = ground (arith, value_after_update row xs)

other_row :
    (s t : ℕ) (k l : String) (x : OverrideRow)
    → (s == t && str_eq k l) ≡ false
    → is_override s k x ≡ true
    → is_override t l x ≡ false
other_row s t k l x apart hit = elim (Bool-cases (is_override t l x)) [
  | inr other ↦ other
  | inl both ↦
      let e : s ≡ t = ground arith in
      let f : k ≡ l = sym (str_eq→≡ x.key k (ground arith)) ∙ str_eq→≡ x.key l (ground arith) in
      absurd (ground (arith, ==-self t, str_eq_self l, e, f))
]

other_after_update :
    (s t : ℕ) (k l : String) (f : OverrideRow → OverrideRow) (xs : List OverrideRow)
    → (s == t && str_eq k l) ≡ false
    → ((x : OverrideRow) → is_override s k (f x) ≡ is_override s k x)
    → select (is_override s k) (update (is_override t l) f xs) ≡ select (is_override s k) xs
other_after_update s t k l f [] apart keep = refl
other_after_update s t k l f (x ∷ xs) apart keep = elim (Bool-cases (is_override s k x)) [
  | inl hit ↦ rw (other_row s t k l x apart hit, hit) refl
  | inr miss ↦ ground (arith, keep x, other_after_update s t k l f xs apart keep)
]

pub get-upsert_same :
    (row : OverrideRow) (db : Db)
    → get_seller_override row.seller_id row.key (upsert_seller_override row db) ≡ some row.value
unfolding get_seller_override upsert_seller_override
get-upsert_same row db = elim (Bool-cases (any (is_override row.seller_id row.key) db.overrides)) [
  | inl there ↦ rw there (value_after_update row db.overrides there)
  | inr new ↦ rw (new, ==-self row.seller_id, str_eq_self row.key) refl
]

pub get-upsert_other :
    (s : ℕ) (k : String) (row : OverrideRow) (db : Db)
    → (s == row.seller_id && str_eq k row.key) ≡ false
    → get_seller_override s k (upsert_seller_override row db) ≡ get_seller_override s k db
unfolding get_seller_override upsert_seller_override
get-upsert_other s k row db apart =
    elim (Bool-cases (any (is_override row.seller_id row.key) db.overrides)) [
      | inl there ↦ rw there (
          ap override_value (
            other_after_update s row.seller_id k row.key (overwrite row) db.overrides apart
              (λ x. refl)))
      | inr new ↦ elim (Bool-cases (is_override s k row)) [
        | inr miss ↦ rw (new, miss) refl
        | inl hit ↦ absurd (
            ground (
              arith,
              other_row s row.seller_id k row.key row apart hit,
              ==-self row.seller_id,
              str_eq_self row.key,
            ))
      ]
    ]

gone_after_delete :
    (s : ℕ) (k : String) (xs : List OverrideRow)
    → select (is_override s k) (without (is_override s k) xs) ≡ none
gone_after_delete s k [] = refl
gone_after_delete s k (x ∷ xs) = ground (arith, gone_after_delete s k xs)

pub get-delete_same :
    (s : ℕ) (k : String) (db : Db) → get_seller_override s k (delete_seller_override s k db) ≡ none
unfolding get_seller_override delete_seller_override
get-delete_same s k db = ap override_value (gone_after_delete s k db.overrides)

other_after_delete :
    (s t : ℕ) (k l : String) (xs : List OverrideRow)
    → (s == t && str_eq k l) ≡ false
    → select (is_override s k) (without (is_override t l) xs) ≡ select (is_override s k) xs
other_after_delete s t k l [] apart = refl
other_after_delete s t k l (x ∷ xs) apart = elim (Bool-cases (is_override s k x)) [
  | inl hit ↦ rw (other_row s t k l x apart hit, hit) refl
  | inr miss ↦ ground (arith, other_after_delete s t k l xs apart)
]

pub get-delete_other :
    (s t : ℕ) (k l : String) (db : Db)
    → (s == t && str_eq k l) ≡ false
    → get_seller_override s k (delete_seller_override t l db) ≡ get_seller_override s k db
unfolding get_seller_override delete_seller_override
get-delete_other s t k l db apart =
    ap override_value (other_after_delete s t k l db.overrides apart)

-- A cached entry is the new one, or it was there before and is another's.
pub put_seller-cases :
    (s t : ℕ) (k l : String) (entry : Option TimedValue) (m : ℕ → Values)
    → ((s ≡ t) × (k ≡ l) × (put_seller t l entry m s k ≡ entry))
      ⊎ (((s == t && str_eq k l) ≡ false) × (put_seller t l entry m s k ≡ m s k))
put_seller-cases s t k l entry m = elim (Bool-cases (s == t)) [
  | inr a ↦ inr (ground arith, rw a refl)
  | inl a ↦ elim (Bool-cases (str_eq k l)) [
    | inl b ↦ inl (==→≡ s t a, str_eq→≡ k l b, rw (a, b) refl)
    | inr b ↦ inr (rw (a, b) refl, rw (a, b) refl)
  ]
]
