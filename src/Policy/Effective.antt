-- ===== src/Policy/Effective.antt =====
-- What a setting is meant to be (backend/internal/policy/service.go), from the tables alone, and what
-- the answers of Resolve have to do with it.
use pikship.Prelude.{
  ℕ, ◌+◌, String, ◌≡◌, refl, inl, inr, Bool, ◌&&◌, Option, none, some, List, [], ◌∷◌, arith, str_eq,
  if◌then◌else◌, ltb, Option-cases,
}
use pikship.Prelude.Table.{select}
use pikship.Prelude.Tx.{ok}
use pikship.Policy.Values.{Value}
use pikship.Policy.Definitions.{Definition, definition_by_key, type_default}
use pikship.Policy.Cache.{
  TimedValue, cache_ttl, live, global_lock, seller_type_lock, new_cache, set_global_lock,
  set_seller_type_lock, seller_override,
}
use pikship.Policy.Rows.{LockScopeKind, LockRow, Db, kind_eq, get_seller_type, get_seller_override}
use pikship.Policy.Resolve.{State, no_faults, resolve}
use pikship.Policy.Engine.{warm_locks}

abbrev pub locks_all : String → LockRow → Bool
locks_all key r = kind_eq r.scope.kind LockScopeKind.global && str_eq key r.key

abbrev pub locks_type : String → String → LockRow → Bool
locks_type t key r =
    kind_eq r.scope.kind LockScopeKind.seller_type && (str_eq t r.scope.value && str_eq key r.key)

abbrev pub lock_value : Option LockRow → Option Value
lock_value none = none
lock_value (some r) = some r.value

abbrev pub or_else : Option Value → Value → Value
or_else none w = w
or_else (some v) w = v

-- The first of: the lock of all sellers, the lock of the seller's type, the seller's override, the
-- default of its type and the default of all.
unfoldable pub effective : List LockRow → Db → ℕ → Definition → Value
effective locks db seller def = or_else (lock_value (select (locks_all def.key) locks)) (
    or_else (lock_value (select (locks_type (get_seller_type seller db) def.key) locks)) (
      or_else (get_seller_override seller def.key db) (
        or_else (type_default (get_seller_type seller db) def.defaults_by_type)
          def.default_global)))

-- The locks that count `now`, for a process that read them at `start`.
abbrev pub in_force : ℕ → ℕ → List LockRow → List LockRow
in_force start now locks = if ltb now (start + cache_ttl) then locks else []

pub warm_global :
    (start now : ℕ) (key : String) (locks : List LockRow)
    → global_lock now key (warm_locks start locks new_cache)
      ≡ lock_value (select (locks_all key) (in_force start now locks))
unfolding set_global_lock set_seller_type_lock
warm_global start now key [] = ground arith
warm_global start now key (r ∷ rs) = ground (arith, warm_global start now key rs)

pub warm_type :
    (start now : ℕ) (t key : String) (locks : List LockRow)
    → seller_type_lock now t key (warm_locks start locks new_cache)
      ≡ lock_value (select (locks_type t key) (in_force start now locks))
unfolding set_global_lock set_seller_type_lock
warm_type start now t key [] = ground arith
warm_type start now t key (r ∷ rs) = ground (arith, warm_type start now t key rs)

-- The overrides in the cache are those of the table, whether they have lapsed or not.
abbrev pub Matches : State → Type 0
Matches s =
    (seller : ℕ) (key : String) (t : TimedValue)
    → s.cache.overrides seller key ≡ some t
    → get_seller_override seller key s.db ≡ some t.value

pub live_entry :
    (now : ℕ) (o : Option TimedValue) (v : Value)
    → live now o ≡ some v
    → (t : TimedValue) × (o ≡ some t) × (t.value ≡ v)
live_entry now none v h = cc
live_entry now (some t) v h = (t, refl, ground arith)

pub resolve-effective :
    (now seller : ℕ) (key : String) (def : Definition) (locks : List LockRow) (s : State)
    → definition_by_key key ≡ some def
    → global_lock now def.key s.cache ≡ lock_value (select (locks_all def.key) locks)
    → seller_type_lock now (get_seller_type seller s.db) def.key s.cache
      ≡ lock_value (select (locks_type (get_seller_type seller s.db) def.key) locks)
    → Matches s
    → (resolve no_faults now seller key s).0 ≡ ok (effective locks s.db seller def)
unfolding resolve effective
resolve-effective now seller key def locks s known g t m =
    elim (Option-cases (lock_value (select (locks_all def.key) locks))) [
      | inr (v, lv) ↦ rw (known, g, lv) refl
      | inl free ↦
          elim (Option-cases
            (lock_value (select (locks_type (get_seller_type seller s.db) def.key) locks))) [
              | inr (v, lv) ↦ rw (known, g, free, t, lv) refl
              | inl free_type ↦ elim (Option-cases (seller_override now seller def.key s.cache)) [
                | inr (v, cached) ↦
                    let (e, held, is) =
                      live_entry now (s.cache.overrides seller def.key) v cached in
                    rw (known, g, free, t, free_type, cached, m seller def.key e held, is) refl
                | inl uncached ↦ elim (Option-cases (get_seller_override seller def.key s.db)) [
                  | inr (v, there) ↦ rw (known, g, free, t, free_type, uncached, there) refl
                  | inl unset ↦
                      elim (Option-cases
                        (type_default (get_seller_type seller s.db) def.defaults_by_type)) [
                          | inr (v, there) ↦
                              rw (known, g, free, t, free_type, uncached, unset, there) refl
                          | inl plain ↦
                              rw (known, g, free, t, free_type, uncached, unset, plain) refl
                        ]
                ]
              ]
            ]
    ]
