-- ===== src/Policy/Types.antt =====
-- The declared types of the settings (backend/internal/policy/definitions.go) and the values that
-- Resolve gives.
use pikship.Prelude.{
  ℕ, String, ◌≡◌, refl, inl, inr, Bool, true, false, ◌&&◌, not, Option, none, some, List, [], ◌∷◌,
  arith, str_eq, is_some, ltb, ◌+◌, Bool-cases, Option-cases,
}
use pikship.Prelude.Table.{select, select-holds, any, any-select}
use pikship.Prelude.Tx.{ok}
use pikship.Policy.Values.{
  Value, ValueType, int64_type, paise_type, string_type, bool_type, duration_type, string_list_type,
  string_set_type, as_int64, as_paise, as_string, as_bool, as_string_list,
}
use pikship.Policy.Definitions.{Definition, definition_by_key, has_key, definitions, type_default}
use pikship.Policy.Rows.{
  LockRow, OverrideRow, Db, get_seller_type, get_seller_override, is_override,
}
use pikship.Policy.Resolve.{no_faults, resolve}
use pikship.Policy.Engine.{new_engine}
use pikship.Policy.Cache.{cache_ttl}
use pikship.Policy.Effective.{effective, in_force, locks_all, locks_type, lock_value, or_else}
use pikship.Policy.Runs.{Call, after_all, after_all-effective}

-- The accessor of the type takes the value.
abbrev pub fits_type : ValueType → Value → Bool
fits_type int64_type v = is_some (as_int64 v)
fits_type paise_type v = is_some (as_paise v)
fits_type string_type v = is_some (as_string v)
fits_type bool_type v = is_some (as_bool v)
fits_type duration_type v = is_some (as_string v)
fits_type string_list_type v = is_some (as_string_list v)
fits_type string_set_type v = is_some (as_string_list v)

abbrev all_fit : ValueType → List (String × Value) → Bool
all_fit ty [] = true
all_fit ty ((_, v) ∷ rest) = fits_type ty v && all_fit ty rest

abbrev ill_typed : Definition → Bool
ill_typed d =
    not (fits_type d.value_type d.default_global && all_fit d.value_type d.defaults_by_type)

registry_typed : any ill_typed definitions ≡ false
unfolding definitions
registry_typed = refl

type_default-fits :
    (ty : ValueType) (t : String) (xs : List (String × Value)) (v : Value)
    → all_fit ty xs ≡ true
    → type_default t xs ≡ some v
    → fits_type ty v ≡ true
type_default-fits ty t [] v h e = cc
type_default-fits ty t ((u, w) ∷ rest) v h e = ground (arith, type_default-fits ty t rest v)

abbrev pub bad_lock : Definition → LockRow → Bool
bad_lock def r = str_eq def.key r.key && not (fits_type def.value_type r.value)

abbrev pub bad_override : Definition → OverrideRow → Bool
bad_override def r = str_eq r.key def.key && not (fits_type def.value_type r.value)

lock-fits :
    (def : Definition) (p : LockRow → Bool) (locks : List LockRow) (v : Value)
    → ((r : LockRow) → p r ≡ true → str_eq def.key r.key ≡ true)
    → any (bad_lock def) locks ≡ false
    → lock_value (select p locks) ≡ some v
    → fits_type def.value_type v ≡ true
lock-fits def p locks v keyed good h = elim (Option-cases (select p locks)) [
  | inl gone ↦ absurd (ground (arith))
  | inr (r, found) ↦
      let hit = keyed r (select-holds p r locks found) in
      let fine = any-select (bad_lock def) p r locks good found in ground arith
]

override-fits :
    (def : Definition) (seller : ℕ) (db : Db) (v : Value)
    → any (bad_override def) db.overrides ≡ false
    → get_seller_override seller def.key db ≡ some v
    → fits_type def.value_type v ≡ true
unfolding get_seller_override
override-fits def seller db v good h =
    elim (Option-cases (select (is_override seller def.key) db.overrides)) [
      | inl gone ↦ absurd (ground arith)
      | inr (r, found) ↦
          let hit = select-holds (is_override seller def.key) r db.overrides found in
          let fine =
            any-select (bad_override def) (is_override seller def.key) r db.overrides good found in
          ground arith
    ]

or_else-fits :
    (ty : ValueType) (o : Option Value) (w : Value)
    → ((v : Value) → o ≡ some v → fits_type ty v ≡ true)
    → fits_type ty w ≡ true
    → fits_type ty (or_else o w) ≡ true
or_else-fits ty none w h k = k
or_else-fits ty (some v) w h k = h v refl

effective-fits :
    (key : String) (def : Definition) (locks : List LockRow) (db : Db) (seller : ℕ)
    → definition_by_key key ≡ some def
    → any (bad_lock def) locks ≡ false
    → any (bad_override def) db.overrides ≡ false
    → fits_type def.value_type (effective locks db seller def) ≡ true
unfolding definition_by_key effective
effective-fits key def locks db seller known good fine =
    let ty = def.value_type in
    let t = get_seller_type seller db in
    let declared = any-select ill_typed (has_key key) def definitions registry_typed known in
    let by_type = type_default t def.defaults_by_type in
    or_else-fits ty (lock_value (select (locks_all def.key) locks)) _
      (λ v h. lock-fits def (locks_all def.key) locks v (λ r hit. ground arith) good h)
      (or_else-fits ty (lock_value (select (locks_type t def.key) locks)) _
        (λ v h. lock-fits def (locks_type t def.key) locks v (λ r hit. ground arith) good h)
        (or_else-fits ty (get_seller_override seller def.key db) _
          (λ v h. override-fits def seller db v fine h)
          (or_else-fits ty by_type def.default_global
            (λ v h. type_default-fits ty t def.defaults_by_type v (ground arith) h)
            (ground arith))))

module _ (seller_text : ℕ → String) where
  -- In such a process, where no lock at the start and no override now has a value for the key that
  -- its type's accessor refuses, Resolve of a registered key whose statements succeed answers with
  -- a value that the accessor of the declared type takes.
  pub resolve-fits :
      (start now seller : ℕ) (key : String) (def : Definition) (db : Db) (cs : List Call)
      → definition_by_key key ≡ some def
      → any (bad_lock def) db.locks ≡ false
      → any (bad_override def) (after_all seller_text cs (new_engine start db)).db.overrides ≡ false
      → (v : Value) × ((resolve no_faults now seller key
            (after_all seller_text cs (new_engine start db))).0
          ≡ ok v)
        × (fits_type def.value_type v ≡ true)
  resolve-fits start now seller key def db cs known good fine =
      let t = (after_all seller_text cs (new_engine start db)).db in
      (
        effective (in_force start now db.locks) t seller def,
        after_all-effective seller_text start now seller key def db cs known,
        effective-fits key def (in_force start now db.locks) t seller known
            (elim (Bool-cases (ltb now (start + cache_ttl))) [
              | inl before ↦ rw before good
              | inr later ↦ rw later refl
            ])
            fine,
      )
