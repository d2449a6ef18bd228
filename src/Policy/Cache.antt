-- ===== src/Policy/Cache.antt =====
-- backend/internal/policy/cache.go: locks and overrides with the time at which they lapse. A Go map
-- is a function; times are nanoseconds.
use pikship.Prelude.{ℕ, ◌+◌, String, Option, none, some, ◌==◌, str_eq, if◌then◌else◌, ltb}
use pikship.Policy.Values.{Value}

pub record TimedValue : Type 0 where
  pub value : Value
  pub expires_at : ℕ

abbrev pub Values : Type 0
Values = String → Option TimedValue

pub record Cache : Type 0 where
  pub global_locks : Values
  pub type_locks : String → Values
  pub overrides : ℕ → Values

-- 5 seconds.
abbrev pub cache_ttl : ℕ
cache_ttl = 5_000_000_000

abbrev pub empty_values : Values
empty_values key = none

abbrev pub new_cache : Cache
new_cache = record {
  global_locks = empty_values;
  type_locks = λ t. empty_values;
  overrides = λ seller. empty_values;
}

-- The value of an entry that has not lapsed.
abbrev pub live : ℕ → Option TimedValue → Option Value
live now none = none
live now (some t) = if ltb now t.expires_at then some t.value else none

abbrev pub put : String → Option TimedValue → Values → Values
put key entry m k = if str_eq k key then entry else m k

abbrev pub put_type : String → String → Option TimedValue → (String → Values) → String → Values
put_type t key entry m u = if str_eq u t then put key entry (m u) else m u

abbrev pub put_seller : ℕ → String → Option TimedValue → (ℕ → Values) → ℕ → Values
put_seller seller key entry m s = if s == seller then put key entry (m s) else m s

abbrev pub timed : ℕ → Value → Option TimedValue
timed now value = some (record { value = value; expires_at = now + cache_ttl })

abbrev pub global_lock : ℕ → String → Cache → Option Value
global_lock now key c = live now (c.global_locks key)

abbrev pub seller_type_lock : ℕ → String → String → Cache → Option Value
seller_type_lock now t key c = live now (c.type_locks t key)

abbrev pub seller_override : ℕ → ℕ → String → Cache → Option Value
seller_override now seller key c = live now (c.overrides seller key)

unfoldable pub set_global_lock : ℕ → String → Value → Cache → Cache
set_global_lock now key value c = record c {
  global_locks = put key (timed now value) c.global_locks;
}

unfoldable pub set_seller_type_lock : ℕ → String → String → Value → Cache → Cache
set_seller_type_lock now t key value c = record c {
  type_locks = put_type t key (timed now value) c.type_locks;
}

unfoldable pub set_seller_override : ℕ → ℕ → String → Value → Cache → Cache
set_seller_override now seller key value c = record c {
  overrides = put_seller seller key (timed now value) c.overrides;
}

unfoldable pub invalidate_seller : ℕ → String → Cache → Cache
invalidate_seller seller key c = record c { overrides = put_seller seller key none c.overrides }

unfoldable pub invalidate_global_lock : String → Cache → Cache
invalidate_global_lock key c = record c { global_locks = put key none c.global_locks }

unfoldable pub invalidate_type_lock : String → String → Cache → Cache
invalidate_type_lock t key c = record c { type_locks = put_type t key none c.type_locks }
