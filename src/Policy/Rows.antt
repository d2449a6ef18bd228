-- ===== src/Policy/Rows.antt =====
-- backend/internal/policy/repo.go and the types of service.go: the tables of the policy engine
-- (backend/migrations/0007_policy.up.sql) and the queries on them, sent through the pool of the
-- administrator.
use pikship.Prelude.{
  ℕ, String, Bool, ◌&&◌, Option, none, some, List, ◌∷◌, ◌==◌, str_eq, if◌then◌else◌,
}
use pikship.Prelude.Table.{select, update, any, without}
use pikship.Policy.Values.{Value}
use pikship.Policy.Definitions.{small_medium}

pub data LockScopeKind : Type 0 where
  global seller_type : LockScopeKind

-- `value` is the seller type, and empty for a global lock.
pub record LockScope : Type 0 where
  pub kind : LockScopeKind
  pub value : String

pub data Source : Type 0 where
  seller_self ops : Source

pub data ResolveSource : Type 0 where
  global_default type_default seller_override type_lock global_lock : ResolveSource

pub record SellerRow : Type 0 where
  pub id : ℕ
  pub seller_type : String

pub record OverrideRow : Type 0 where
  pub seller_id : ℕ
  pub key : String
  pub value : Value
  pub source : Source
  pub reason : String
  pub set_by : Option ℕ

pub record LockRow : Type 0 where
  pub scope : LockScope
  pub key : String
  pub value : Value
  pub reason : String
  pub set_by : ℕ

-- An event handed to the audit module: `policy.sensitive_read` or `policy.seller_override.set`.
pub data Audited : Type 0 where
  sensitive_read : ℕ → String → ResolveSource → Audited
  override_set : ℕ → String → Source → String → Audited

-- `notices` are the payloads sent on the channel policy_invalidate, cut at their colons.
pub record Db : Type 0 where
  pub sellers : List SellerRow
  pub overrides : List OverrideRow
  pub locks : List LockRow
  pub notices : List (List String)
  pub audited : List Audited

abbrev pub kind_eq : LockScopeKind → LockScopeKind → Bool
kind_eq LockScopeKind.global LockScopeKind.global = Bool.true
kind_eq LockScopeKind.seller_type LockScopeKind.seller_type = Bool.true
kind_eq _ _ = Bool.false

abbrev pub kind_text : LockScopeKind → String
kind_text LockScopeKind.global = "global"
kind_text LockScopeKind.seller_type = "seller_type"

abbrev pub is_seller : ℕ → SellerRow → Bool
is_seller seller r = r.id == seller

abbrev pub type_of : Option SellerRow → String
type_of none = small_medium
type_of (some r) = r.seller_type

unfoldable pub get_seller_type : ℕ → Db → String
get_seller_type seller db = type_of (select (is_seller seller) db.sellers)

abbrev pub is_override : ℕ → String → OverrideRow → Bool
is_override seller key r = r.seller_id == seller && str_eq r.key key

abbrev pub override_value : Option OverrideRow → Option Value
override_value none = none
override_value (some r) = some r.value

unfoldable pub get_seller_override : ℕ → String → Db → Option Value
get_seller_override seller key db = override_value (select (is_override seller key) db.overrides)

-- ON CONFLICT DO UPDATE.
module _ {A : Type 0} where
  abbrev pub upsert : (A → Bool) → (A → A) → A → List A → List A
  upsert p f row xs = if any p xs then update p f xs else row ∷ xs

abbrev pub overwrite : OverrideRow → OverrideRow → OverrideRow
overwrite row old = record old {
  value = row.value;
  source = row.source;
  reason = row.reason;
  set_by = row.set_by;
}

unfoldable pub upsert_seller_override : OverrideRow → Db → Db
upsert_seller_override row db = record db {
  overrides = upsert (is_override row.seller_id row.key) (overwrite row) row db.overrides;
}

unfoldable pub delete_seller_override : ℕ → String → Db → Db
delete_seller_override seller key db = record db {
  overrides = without (is_override seller key) db.overrides;
}

abbrev pub is_lock : LockScope → String → LockRow → Bool
is_lock scope key r =
    kind_eq r.scope.kind scope.kind && (str_eq r.scope.value scope.value && str_eq r.key key)

abbrev pub overwrite_lock : LockRow → LockRow → LockRow
overwrite_lock row old = record old { value = row.value; reason = row.reason; set_by = row.set_by }

unfoldable pub upsert_lock : LockRow → Db → Db
upsert_lock row db = record db {
  locks = upsert (is_lock row.scope row.key) (overwrite_lock row) row db.locks;
}

unfoldable pub delete_lock : LockScope → String → Db → Db
delete_lock scope key db = record db { locks = without (is_lock scope key) db.locks }

abbrev pub notify : List String → Db → Db
notify payload db = record db { notices = payload ∷ db.notices }

abbrev pub audit : Audited → Db → Db
audit e db = record db { audited = e ∷ db.audited }
