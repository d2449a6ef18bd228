-- ===== src/Policy/Engine.antt =====
-- backend/internal/policy/service_impl.go: overrides, locks, start-up and notices. `seller_text` and
-- `parse_seller` print and read a seller's id.
use pikship.Prelude.{
  ℕ, String, Bool, true, Option, none, some, is_some, List, [], ◌∷◌, str_eq, if◌then◌else◌,
}
use pikship.Prelude.Tx.{database, Result, ok, err}
use pikship.Policy.Values.{Value, absent}
use pikship.Policy.Definitions.{Definition, definition_by_key}
use pikship.Policy.Cache.{
  Cache, new_cache, set_global_lock, set_seller_type_lock, set_seller_override, invalidate_seller,
  invalidate_global_lock, invalidate_type_lock,
}
use pikship.Policy.Cache
use pikship.Policy.Rows.{
  LockScopeKind, LockScope, OverrideRow, LockRow, override_set, Db, kind_text, get_seller_type,
  upsert_seller_override, delete_seller_override, upsert_lock, delete_lock, notify, audit,
}
use pikship.Policy.Resolve.{State, Faults, unknown_key, locked, not_allowed}

-- A seller type that cannot be read is the empty text here.
abbrev pub type_or_empty : Faults → ℕ → Db → String
type_or_empty faults seller db = if faults.type_read then "" else get_seller_type seller db

-- The column of the value is NOT NULL, and the empty text of a `Value` is written as NULL.
abbrev pub refuses : Faults → Value → Bool
refuses faults absent = true
refuses faults _ = faults.write

abbrev pub write_override : Faults → ℕ → OverrideRow → String → State → Result (Unit {0}) × State
write_override faults now row seller_text s =
    if refuses faults row.value then (err database, s) else (
      ok tt,
      record {
        cache = set_seller_override now row.seller_id row.key row.value s.cache;
        db = audit (override_set row.seller_id row.key row.source row.reason) (
            notify ("seller_override" ∷ seller_text ∷ row.key ∷ [])
              (upsert_seller_override row s.db));
      },
    )

abbrev pub set_known :
    Faults → ℕ → OverrideRow → String → Option Definition → State → Result (Unit {0}) × State
set_known faults now row seller_text none s = (err unknown_key, s)
set_known faults now row seller_text (some def) s =
    if def.override_allowed
    then (if is_some (pikship.Policy.Cache.global_lock now row.key s.cache)
        then (err locked, s)
        else if is_some (
            pikship.Policy.Cache.seller_type_lock now (type_or_empty faults row.seller_id s.db)
              row.key s.cache)
        then (err locked, s)
        else write_override faults now row seller_text s)
    else (err not_allowed, s)

module _ (seller_text : ℕ → String) where
  -- `SetSellerOverride`.
  unfoldable pub set_override : Faults → ℕ → OverrideRow → State → Result (Unit {0}) × State
  set_override faults now row s =
      set_known faults now row (seller_text row.seller_id) (definition_by_key row.key) s

  abbrev pub remove_known :
      Faults → ℕ → String → Option Definition → State → Result (Unit {0}) × State
  remove_known faults seller key none s = (err unknown_key, s)
  remove_known faults seller key (some def) s = if faults.write then (err database, s) else (
    ok tt,
    record {
      cache = invalidate_seller seller key s.cache;
      db =
          notify ("seller_override" ∷ seller_text seller ∷ key ∷ [])
            (delete_seller_override seller key s.db);
    },
  )

  -- `RemoveSellerOverride`.
  unfoldable pub remove_override : Faults → ℕ → String → State → Result (Unit {0}) × State
  remove_override faults seller key s = remove_known faults seller key (definition_by_key key) s

abbrev pub cache_lock : ℕ → LockScopeKind → String → String → Value → Cache → Cache
cache_lock now LockScopeKind.global t key v c = set_global_lock now key v c
cache_lock now LockScopeKind.seller_type t key v c = set_seller_type_lock now t key v c

abbrev pub uncache_lock : LockScopeKind → String → String → Cache → Cache
uncache_lock LockScopeKind.global t key c = invalidate_global_lock key c
uncache_lock LockScopeKind.seller_type t key c = invalidate_type_lock t key c

abbrev pub lock_notice : LockScope → String → List String
lock_notice scope key = "lock" ∷ kind_text scope.kind ∷ scope.value ∷ key ∷ []

abbrev pub write_lock : Faults → ℕ → LockRow → State → Result (Unit {0}) × State
write_lock faults now row s = if refuses faults row.value then (err database, s) else (
  ok tt,
  record {
    cache = cache_lock now row.scope.kind row.scope.value row.key row.value s.cache;
    db = notify (lock_notice row.scope row.key) (upsert_lock row s.db);
  },
)

abbrev pub lock_known : Faults → ℕ → LockRow → Option Definition → State → Result (Unit {0}) × State
lock_known faults now row none s = (err unknown_key, s)
lock_known faults now row (some def) s =
    if def.lock_capable then write_lock faults now row s else (err not_allowed, s)

-- `SetLock`.
unfoldable pub set_lock : Faults → ℕ → LockRow → State → Result (Unit {0}) × State
set_lock faults now row s = lock_known faults now row (definition_by_key row.key) s

-- `RemoveLock`.
unfoldable pub remove_lock : Faults → LockScope → String → State → Result (Unit {0}) × State
remove_lock faults scope key s = if faults.write then (err database, s) else (
  ok tt,
  record {
    cache = uncache_lock scope.kind scope.value key s.cache;
    db = notify (lock_notice scope key) (delete_lock scope key s.db);
  },
)

-- `warmCache`. Postgres gives the locks in no set order; here the head of the list comes last.
abbrev pub warm_locks : ℕ → List LockRow → Cache → Cache
warm_locks now [] c = c
warm_locks now (r ∷ rs) c =
    cache_lock now r.scope.kind r.scope.value r.key r.value (warm_locks now rs c)

-- `New`.
unfoldable pub new_engine : ℕ → Db → State
new_engine now db = record { cache = warm_locks now db.locks new_cache; db = db }

module _ (parse_seller : String → Option ℕ) where
  abbrev pub forget_override : String → Option ℕ → Cache → Cache
  forget_override key none c = c
  forget_override key (some seller) c = invalidate_seller seller key c

  abbrev pub forget_type_lock : String → List String → Cache → Cache
  forget_type_lock t [] c = c
  forget_type_lock t (key ∷ _) c = invalidate_type_lock t key c

  -- `handleNotification`, of a payload cut at its colons.
  unfoldable pub handle_notification : List String → Cache → Cache
  handle_notification (what ∷ scope ∷ third ∷ rest) c =
      if str_eq what "seller_override"
      then forget_override third (parse_seller scope) c
      else if str_eq what "lock"
      then (if str_eq scope "global"
          then invalidate_global_lock third c
          else if str_eq scope "seller_type"
          then forget_type_lock third rest c
          else c)
      else c
  handle_notification _ c = c
