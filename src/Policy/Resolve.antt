-- ===== src/Policy/Resolve.antt =====
-- backend/internal/policy/service_impl.go: Resolve, ResolveBatch and EffectiveConfig. `now` is the clock.
use pikship.Prelude.{ℕ, String, Bool, false, Option, none, some, List, [], ◌∷◌, if◌then◌else◌}
use pikship.Prelude.Tx.{Error, plain, database, Result, ok, err}
use pikship.Policy.Values.{Value}
use pikship.Policy.Definitions.{Definition, definition_by_key, definitions}
use pikship.Policy.Definitions
use pikship.Policy.Cache.{
  Cache, new_cache, set_global_lock, set_seller_type_lock, set_seller_override, invalidate_seller,
  invalidate_global_lock, invalidate_type_lock,
}
use pikship.Policy.Cache
use pikship.Policy.Rows.{
  ResolveSource, global_default, type_default, seller_override, type_lock, global_lock,
  sensitive_read, Db, get_seller_type, get_seller_override, audit,
}

-- One process and the tables that it shares with the others.
pub record State : Type 0 where
  pub cache : Cache
  pub db : Db

-- Which statements fail in a call.
pub record Faults : Type 0 where
  pub type_read : Bool
  pub override_read : Bool
  pub write : Bool

abbrev pub no_faults : Faults
no_faults = record { type_read = false; override_read = false; write = false }

-- ErrUnknownKey and ErrLocked wrap no sentinel of the core.
abbrev pub unknown_key : Error
unknown_key = plain

abbrev pub locked : Error
locked = plain

abbrev pub not_allowed : Error
not_allowed = plain

-- `maybeAudit` and the answer.
abbrev pub answer : ℕ → Definition → ResolveSource → Value → State → Result Value × State
answer seller def src v s = (
  ok v,
  if def.audit_on_read then record s { db = audit (sensitive_read seller def.key src) s.db } else s,
)

abbrev pub resolve_default : ℕ → Definition → Option Value → State → Result Value × State
resolve_default seller def (some v) s = answer seller def type_default v s
resolve_default seller def none s = answer seller def global_default def.default_global s

-- The override that the table has is put into the cache.
abbrev pub resolve_stored :
    ℕ → ℕ → String → Definition → Option Value → State → Result Value × State
resolve_stored now seller t def (some v) s =
    answer seller def seller_override v
      (record s { cache = set_seller_override now seller def.key v s.cache })
resolve_stored now seller t def none s =
    resolve_default seller def (pikship.Policy.Definitions.type_default t def.defaults_by_type) s

-- A read that fails is passed over.
abbrev pub read_override : Faults → ℕ → String → Db → Option Value
read_override faults seller key db =
    if faults.override_read then none else get_seller_override seller key db

abbrev pub resolve_override :
    Faults → ℕ → ℕ → String → Definition → Option Value → State → Result Value × State
resolve_override faults now seller t def (some v) s = answer seller def seller_override v s
resolve_override faults now seller t def none s =
    resolve_stored now seller t def (read_override faults seller def.key s.db) s

abbrev pub resolve_type :
    Faults → ℕ → ℕ → String → Definition → Option Value → State → Result Value × State
resolve_type faults now seller t def (some v) s = answer seller def type_lock v s
resolve_type faults now seller t def none s =
    resolve_override faults now seller t def
      (pikship.Policy.Cache.seller_override now seller def.key s.cache) s

abbrev pub resolve_unlocked : Faults → ℕ → ℕ → Definition → String → State → Result Value × State
resolve_unlocked faults now seller def t s =
    if faults.type_read
    then (err database, s)
    else resolve_type faults now seller t def
        (pikship.Policy.Cache.seller_type_lock now t def.key s.cache) s

abbrev pub resolve_known : Faults → ℕ → ℕ → Definition → Option Value → State → Result Value × State
resolve_known faults now seller def (some v) s = answer seller def global_lock v s
resolve_known faults now seller def none s =
    resolve_unlocked faults now seller def (get_seller_type seller s.db) s

abbrev pub resolve_found :
    Faults → ℕ → ℕ → String → Option Definition → State → Result Value × State
resolve_found faults now seller key none s = (err unknown_key, s)
resolve_found faults now seller key (some def) s =
    resolve_known faults now seller def (pikship.Policy.Cache.global_lock now def.key s.cache) s

unfoldable pub resolve : Faults → ℕ → ℕ → String → State → Result Value × State
resolve faults now seller key s = resolve_found faults now seller key (definition_by_key key) s

-- `ResolveBatch` and `EffectiveConfig`: an error loses what was resolved before.
abbrev pub batch_rest :
    Value → String → Result (List (String × Value)) × State → Result (List (String × Value)) × State
batch_rest v key (ok rest, s) = (ok ((key, v) ∷ rest), s)
batch_rest v key (err e, s) = (err e, s)

abbrev pub batch_step :
    String
    → (State → Result (List (String × Value)) × State)
    → Result Value × State
    → Result (List (String × Value)) × State
batch_step key go (err e, s) = (err e, s)
batch_step key go (ok v, s) = batch_rest v key (go s)

module _ (faults : Faults) (now seller : ℕ) where
  unfoldable pub resolve_batch : List String → State → Result (List (String × Value)) × State
  resolve_batch [] s = (ok [], s)
  resolve_batch (key ∷ keys) s =
      batch_step key (resolve_batch keys) (resolve faults now seller key s)

  abbrev pub keys_of : List Definition → List String
  keys_of [] = []
  keys_of (d ∷ ds) = d.key ∷ keys_of ds

  unfoldable pub effective_config : State → Result (List (String × Value)) × State
  effective_config s = resolve_batch (keys_of definitions) s
