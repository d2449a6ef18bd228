-- ===== src/Policy/Examples.antt =====
-- A seller, a lock and an override; the theorems applied to them, and runs of the engine.
use pikship.Prelude.{ℕ, arith, String, ◌≡◌, refl, true, false, Option, none, some, List, [], ◌∷◌}
use pikship.Prelude.Int.{pos}
use pikship.Prelude.Tx.{ok}
use pikship.Policy.Values.{Value, number}
use pikship.Policy.Keys.{orders_per_day_limit}
use pikship.Policy.Definitions.{
  Definition, define, mid_market, enterprise, definitions, definition_by_key,
}
use pikship.Policy.Values.{int64_type}
use pikship.Policy.Rows.{
  LockScopeKind, LockScope, Source, OverrideRow, LockRow, Db, get_seller_override,
}
use pikship.Policy.Cache.{new_cache, set_global_lock, set_seller_override}
use pikship.Policy.Resolve.{State, no_faults, resolve}
use pikship.Policy.Engine.{new_engine, set_override}
use pikship.Policy.Effective.{effective, in_force}
use pikship.Policy.Types.{fits_type, resolve-fits}
use pikship.Policy.Runs.{Call, after, after_all, after_all-effective}
use pikship.Policy.Settings.{set_override-resolve}

abbrev seller_text : ℕ → String
seller_text n = "s"

abbrev parse_seller : String → Option ℕ
parse_seller t = some 7

abbrev row : OverrideRow
row = record {
  seller_id = 7;
  key = orders_per_day_limit;
  value = number (pos 900);
  source = Source.ops;
  reason = "asked";
  set_by = none;
}

abbrev for_all : LockScope
for_all = record { kind = LockScopeKind.global; value = "" }

abbrev lock_row : LockRow
lock_row = record {
  scope = for_all;
  key = orders_per_day_limit;
  value = number (pos 50);
  reason = "incident";
  set_by = 1;
}

abbrev tables : Db
tables = record {
  sellers = record { id = 7; seller_type = mid_market } ∷ [];
  overrides = row ∷ [];
  locks = lock_row ∷ [];
  notices = [];
  audited = [];
}

abbrev day_limit : Definition
day_limit =
    define orders_per_day_limit int64_type (number (pos 200))
      ((mid_market, number (pos 2_000)) ∷ (enterprise, number (pos 0)) ∷ []) true true false

day_limit_known : definition_by_key orders_per_day_limit ≡ some day_limit
unfolding definition_by_key definitions
day_limit_known = refl

abbrev calls : List Call
calls = Call.resolves no_faults 10 7 orders_per_day_limit ∷ []

-- Six seconds after the start the lock is passed over.
after_all-effective_example :
    (resolve no_faults 6_000_000_000 7 orders_per_day_limit
      (after_all seller_text calls (new_engine 0 tables))).0
    ≡ ok (
        effective
          (in_force 0 6_000_000_000 tables.locks)
          (after_all seller_text calls (new_engine 0 tables)).db
          7
          day_limit)
after_all-effective_example =
    after_all-effective seller_text 0 6_000_000_000 7 orders_per_day_limit day_limit tables calls
      day_limit_known

lock_lapsed :
    ((resolve no_faults 4_000_000_000 7 orders_per_day_limit (new_engine 0 tables)).0
      ≡ ok (number (pos 50)))
    × ((resolve no_faults 6_000_000_000 7 orders_per_day_limit (new_engine 0 tables)).0
        ≡ ok (number (pos 900)))
unfolding resolve new_engine set_global_lock set_seller_override get_seller_override
    definition_by_key definitions
lock_lapsed = (refl, refl)

resolve-fits_example :
    (v : Value) × ((resolve no_faults 6_000_000_000 7 orders_per_day_limit
        (after_all seller_text calls (new_engine 0 tables))).0
      ≡ ok v)
    × (fits_type day_limit.value_type v ≡ true)
unfolding after_all after resolve new_engine set_global_lock set_seller_override get_seller_override
    definition_by_key definitions
resolve-fits_example =
    resolve-fits seller_text 0 6_000_000_000 7 orders_per_day_limit day_limit tables calls
      day_limit_known refl refl

abbrev bare : State
bare = record { cache = new_cache; db = record tables { overrides = []; locks = [] } }

set_override-resolve_example :
    (resolve no_faults 9_000_000_000 7 orders_per_day_limit
      (set_override seller_text no_faults 5 row bare).1).0
    ≡ ok (number (pos 900))
unfolding set_override definition_by_key definitions
set_override-resolve_example =
    set_override-resolve seller_text no_faults 5 9_000_000_000 row bare (λ seller key t h. cc) refl
      (ground arith) refl
