-- ===== src/Policy/Moves.antt =====
-- What the calls of the policy engine (backend/internal/policy/service_impl.go) do to the cached
-- and the stored overrides.
use pikship.Prelude.{
  ℕ, String, ◌≡◌, ◌⊎◌, refl, inl, inr, false, Option, none, some, arith, Bool-cases,
}
use pikship.Policy.Values.{Value}
use pikship.Policy.Definitions.{Definition, definition_by_key, type_default}
use pikship.Policy.Cache.{
  global_lock, seller_type_lock, seller_override, set_seller_override, invalidate_seller,
}
use pikship.Policy.Rows.{
  OverrideRow, Db, ResolveSource, global_default, type_lock, get_seller_type, get_seller_override,
  upsert_seller_override, delete_seller_override,
}
use pikship.Policy.Resolve.{
  State, Faults, answer, resolve, resolve_default, read_override, resolve_stored, resolve_override,
  resolve_type, resolve_unlocked, resolve_known, resolve_found,
}
use pikship.Policy.Engine.{refuses, write_override, set_known, remove_known}

-- What a call can do to the cached overrides and the stored ones. The locks are left alone.
pub data Moves (s : State) : State → Type 0 where
  keeps : (t : State) → t.cache ≡ s.cache → t.db.overrides ≡ s.db.overrides → Moves s t
  promotes :
      (t : State) (now seller : ℕ) (key : String) (v : Value)
      → get_seller_override seller key s.db ≡ some v
      → t.cache ≡ set_seller_override now seller key v s.cache
      → t.db.overrides ≡ s.db.overrides
      → Moves s t
  stores :
      (t : State) (now : ℕ) (row : OverrideRow)
      → t.cache ≡ set_seller_override now row.seller_id row.key row.value s.cache
      → t.db.overrides ≡ (upsert_seller_override row s.db).overrides
      → Moves s t
  deletes :
      (t : State) (seller : ℕ) (key : String)
      → t.cache ≡ invalidate_seller seller key s.cache
      → t.db.overrides ≡ (delete_seller_override seller key s.db).overrides
      → Moves s t

answered :
    (seller : ℕ) (def : Definition) (src : ResolveSource) (v : Value) (s : State)
    → ((answer seller def src v s).1.cache ≡ s.cache)
      × ((answer seller def src v s).1.db.overrides ≡ s.db.overrides)
answered seller def src v s = ground arith

answer-Moves :
    (seller : ℕ) (def : Definition) (src : ResolveSource) (v : Value) (s : State)
    → Moves s (answer seller def src v s).1
answer-Moves seller def src v s =
    Moves.keeps (answer seller def src v s).1 (answered seller def src v s).0
      (answered seller def src v s).1

default-Moves :
    (seller : ℕ) (def : Definition) (o : Option Value) (s : State)
    → Moves s (resolve_default seller def o s).1
default-Moves seller def none s = answer-Moves seller def global_default def.default_global s
default-Moves seller def (some v) s = answer-Moves seller def ResolveSource.type_default v s

stored-Moves :
    (now seller : ℕ) (t : String) (def : Definition) (o : Option Value) (s : State)
    → ((v : Value) → o ≡ some v → get_seller_override seller def.key s.db ≡ some v)
    → Moves s (resolve_stored now seller t def o s).1
stored-Moves now seller t def none s there =
    default-Moves seller def (type_default t def.defaults_by_type) s
stored-Moves now seller t def (some v) s there =
    let s' : State = record s { cache = set_seller_override now seller def.key v s.cache } in
    let (c, d) = answered seller def ResolveSource.seller_override v s' in
    Moves.promotes (answer seller def ResolveSource.seller_override v s').1 now seller def.key v
      (there v refl) c d

read_stored :
    (faults : Faults) (seller : ℕ) (key : String) (db : Db) (v : Value)
    → read_override faults seller key db ≡ some v
    → get_seller_override seller key db ≡ some v
read_stored faults seller key db v h = ground arith

override-Moves :
    (faults : Faults) (now seller : ℕ) (t : String) (def : Definition) (o : Option Value)
    (s : State)
    → Moves s (resolve_override faults now seller t def o s).1
override-Moves faults now seller t def (some v) s =
    answer-Moves seller def ResolveSource.seller_override v s
override-Moves faults now seller t def none s =
    stored-Moves now seller t def (read_override faults seller def.key s.db) s
      (read_stored faults seller def.key s.db)

type-Moves :
    (faults : Faults) (now seller : ℕ) (t : String) (def : Definition) (o : Option Value)
    (s : State)
    → Moves s (resolve_type faults now seller t def o s).1
type-Moves faults now seller t def (some v) s = answer-Moves seller def type_lock v s
type-Moves faults now seller t def none s =
    override-Moves faults now seller t def (seller_override now seller def.key s.cache) s

unlocked-Moves :
    (faults : Faults) (now seller : ℕ) (def : Definition) (t : String) (s : State)
    → Moves s (resolve_unlocked faults now seller def t s).1
unlocked-Moves faults now seller def t s = elim (Bool-cases faults.type_read) [
  | inl down ↦ rw down (Moves.keeps s refl refl)
  | inr up ↦ rw up (type-Moves faults now seller t def (seller_type_lock now t def.key s.cache) s)
]

known-Moves :
    (faults : Faults) (now seller : ℕ) (def : Definition) (o : Option Value) (s : State)
    → Moves s (resolve_known faults now seller def o s).1
known-Moves faults now seller def (some v) s = answer-Moves seller def ResolveSource.global_lock v s
known-Moves faults now seller def none s =
    unlocked-Moves faults now seller def (get_seller_type seller s.db) s

found-Moves :
    (faults : Faults) (now seller : ℕ) (key : String) (o : Option Definition) (s : State)
    → Moves s (resolve_found faults now seller key o s).1
found-Moves faults now seller key none s = Moves.keeps s refl refl
found-Moves faults now seller key (some def) s =
    known-Moves faults now seller def (global_lock now def.key s.cache) s

pub resolve-Moves :
    (faults : Faults) (now seller : ℕ) (key : String) (s : State)
    → Moves s (resolve faults now seller key s).1
unfolding resolve
resolve-Moves faults now seller key s = found-Moves faults now seller key (definition_by_key key) s

pub write-Moves :
    (faults : Faults) (now : ℕ) (row : OverrideRow) (seller_text : String) (s : State)
    → Moves s (write_override faults now row seller_text s).1
write-Moves faults now row seller_text s = elim (Bool-cases (refuses faults row.value)) [
  | inl down ↦ rw down (Moves.keeps s refl refl)
  | inr up ↦
      Moves.stores (write_override faults now row seller_text s).1 now row (rw up refl) (rw up refl)
]

pub set-Moves :
    (faults : Faults) (now : ℕ) (row : OverrideRow) (seller_text : String) (o : Option Definition)
    (s : State)
    → ((set_known faults now row seller_text o s).1 ≡ s)
      ⊎ ((set_known faults now row seller_text o s).1
          ≡ (write_override faults now row seller_text s).1)
set-Moves faults now row seller_text none s = inl refl
set-Moves faults now row seller_text (some def) s = ground arith

pub remove-Moves :
    (seller_text : ℕ → String) (faults : Faults) (seller : ℕ) (key : String) (o : Option Definition)
    (s : State)
    → Moves s (remove_known seller_text faults seller key o s).1
remove-Moves seller_text faults seller key none s = Moves.keeps s refl refl
remove-Moves seller_text faults seller key (some def) s = elim (Bool-cases faults.write) [
  | inl down ↦ rw down (Moves.keeps s refl refl)
  | inr up ↦ rw up (
      Moves.deletes
        (remove_known seller_text (record faults { write = false }) seller key (some def) s).1
        seller key refl refl)
]
