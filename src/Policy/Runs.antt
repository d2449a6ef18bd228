-- ===== src/Policy/Runs.antt =====
-- Calls of the policy engine (backend/internal/policy/service_impl.go) in one process: what Resolve
-- answers after any of them, and how long a lock holds.
use pikship.Prelude.{
  ℕ, String, ◌≡◌, ◌==◌, ◌&&◌, str_eq, refl, sym, ap, ◌∙◌, inl, inr, false, Option, none, some, List,
  [], ◌∷◌, arith,
}
use mathlib.Core.Path.{subst}
use pikship.Prelude.Tx.{ok}
use pikship.Policy.Values.{Value}
use pikship.Policy.Definitions.{Definition, definition_by_key}
use pikship.Policy.Cache.{
  TimedValue, Cache, Values, live, new_cache, timed, put_seller, set_seller_override,
  invalidate_seller, set_global_lock, set_seller_type_lock,
}
use pikship.Policy.Rows.{
  OverrideRow, LockRow, Db, get_seller_type, get_seller_override, upsert_seller_override,
  delete_seller_override,
}
use pikship.Policy.Resolve.{State, Faults, no_faults, resolve}
use pikship.Policy.Engine.{warm_locks, new_engine, set_override, remove_override}
use pikship.Policy.Effective.{
  effective, in_force, warm_global, warm_type, Matches, resolve-effective,
}
use pikship.Policy.Overrides.{get-upsert_same, get-upsert_other, get-delete_other, put_seller-cases}
use pikship.Policy.Moves.{Moves, resolve-Moves, set-Moves, write-Moves, remove-Moves}

-- A call, with the time it is made at and the statements that fail in it.
pub data Call : Type 0 where
  resolves : Faults → ℕ → ℕ → String → Call
  sets : Faults → ℕ → OverrideRow → Call
  removes : Faults → ℕ → String → Call

-- What holds of one process, started at `start` when the locks were `locks`.
record Since (start : ℕ) (locks : List LockRow) (s : State) : Type 0 where
  all_sellers : s.cache.global_locks ≡ (warm_locks start locks new_cache).global_locks
  by_type : s.cache.type_locks ≡ (warm_locks start locks new_cache).type_locks
  matched : Matches s

stored_same :
    (seller : ℕ) (key : String) (d e : Db)
    → e.overrides ≡ d.overrides
    → get_seller_override seller key e ≡ get_seller_override seller key d
unfolding get_seller_override
stored_same seller key d e h = rw h refl

timed_value :
    (now : ℕ) (v : Value) (o : Option TimedValue) (e : TimedValue)
    → o ≡ timed now v
    → o ≡ some e
    → some v ≡ some e.value
timed_value now v o e h k = ground arith

-- The cached overrides after a new entry match a table that has the entry, and is else the same.
put-Matches :
    (s : State) (db : Db) (seller : ℕ) (key : String) (entry : Option TimedValue)
    → Matches s
    → ((e : TimedValue) → entry ≡ some e → get_seller_override seller key db ≡ some e.value)
    → ((other : ℕ) (k : String)
        → (other == seller && str_eq k key) ≡ false
        → get_seller_override other k db ≡ get_seller_override other k s.db)
    → (other : ℕ) (k : String) (e : TimedValue)
    → put_seller seller key entry s.cache.overrides other k ≡ some e
    → get_seller_override other k db ≡ some e.value
put-Matches s db seller key entry m new old other k e held =
    elim (put_seller-cases other seller k key entry s.cache.overrides) [
      | inl (a, b, is) ↦ rw (a, b) (new e (sym is ∙ held))
      | inr (apart, is) ↦ old other k apart ∙ m other k e (sym is ∙ held)
    ]

value_of_timed :
    (now : ℕ) (v : Value) (e : TimedValue) → timed now v ≡ some e → some v ≡ some e.value
value_of_timed now v e h = ground arith

pub move-Matches : (s t : State) → Moves s t → Matches s → Matches t
unfolding set_seller_override invalidate_seller
move-Matches s t (Moves.keeps _ c d) m seller key e held =
    stored_same seller key s.db t.db d
    ∙ m seller key e (sym (ap (λ (x : Cache). x.overrides seller key) c) ∙ held)
move-Matches s t (Moves.promotes _ now who what v there c d) m seller key e held =
    stored_same seller key s.db t.db d
    ∙ put-Matches s s.db who what (timed now v) m (λ x h. there ∙ value_of_timed now v x h)
        (λ other k apart. refl) seller key e
        (sym (ap (λ (x : Cache). x.overrides seller key) c) ∙ held)
move-Matches s t (Moves.stores _ now row c d) m seller key e held =
    stored_same seller key (upsert_seller_override row s.db) t.db d
    ∙ put-Matches s (upsert_seller_override row s.db) row.seller_id row.key (timed now row.value) m
        (λ x h. get-upsert_same row s.db ∙ value_of_timed now row.value x h)
        (λ other k apart. get-upsert_other other k row s.db apart) seller key e
        (sym (ap (λ (x : Cache). x.overrides seller key) c) ∙ held)
move-Matches s t (Moves.deletes _ who what c d) m seller key e held =
    stored_same seller key (delete_seller_override who what s.db) t.db d
    ∙ put-Matches s (delete_seller_override who what s.db) who what none m (λ x h. cc)
        (λ other k apart. get-delete_other other who k what s.db apart) seller key e
        (sym (ap (λ (x : Cache). x.overrides seller key) c) ∙ held)

move_locks :
    (s t : State)
    → Moves s t
    → (t.cache.global_locks ≡ s.cache.global_locks) × (t.cache.type_locks ≡ s.cache.type_locks)
unfolding set_seller_override invalidate_seller
move_locks s t (Moves.keeps _ c d) = (ap (λ x. x.global_locks) c, ap (λ x. x.type_locks) c)
move_locks s t (Moves.promotes _ now who what v there c d) =
    (ap (λ x. x.global_locks) c, ap (λ x. x.type_locks) c)
move_locks s t (Moves.stores _ now row c d) = (ap (λ x. x.global_locks) c, ap (λ x. x.type_locks) c)
move_locks s t (Moves.deletes _ who what c d) =
    (ap (λ x. x.global_locks) c, ap (λ x. x.type_locks) c)

-- At the start no override is cached.
warm_overrides :
    (start : ℕ) (locks : List LockRow) (seller : ℕ) (key : String)
    → (warm_locks start locks new_cache).overrides seller key ≡ none
unfolding set_global_lock set_seller_type_lock
warm_overrides start [] seller key = refl
warm_overrides start (r ∷ rs) seller key = ground (arith, warm_overrides start rs seller key)

new-Since : (start : ℕ) (db : Db) → Since start db.locks (new_engine start db)
unfolding new_engine
new-Since start db = record {
  all_sellers = refl;
  by_type = refl;
  matched = λ seller key e held. ground (arith, warm_overrides start db.locks seller key);
}

module _ (seller_text : ℕ → String) where
  unfoldable pub after : Call → State → State
  after (Call.resolves faults now seller key) s = (resolve faults now seller key s).1
  after (Call.sets faults now row) s = (set_override seller_text faults now row s).1
  after (Call.removes faults seller key) s = (remove_override seller_text faults seller key s).1

  after-Moves : (c : Call) (s : State) → Moves s (after c s)
  unfolding after set_override remove_override
  after-Moves (Call.resolves faults now seller key) s = resolve-Moves faults now seller key s
  after-Moves (Call.sets faults now row) s =
      elim (set-Moves faults now row (seller_text row.seller_id) (definition_by_key row.key) s) [
        | inl same ↦ subst (Moves s) (sym same) (Moves.keeps s refl refl)
        | inr written ↦
            subst (Moves s) (sym written) (write-Moves faults now row (seller_text row.seller_id) s)
      ]
  after-Moves (Call.removes faults seller key) s =
      remove-Moves seller_text faults seller key (definition_by_key key) s

  after-Since :
      (start : ℕ) (locks : List LockRow) (c : Call) (s : State)
      → Since start locks s
      → Since start locks (after c s)
  after-Since start locks c s h =
      let (g, t) = move_locks s (after c s) (after-Moves c s) in
      record {
        all_sellers = g ∙ h.all_sellers;
        by_type = t ∙ h.by_type;
        matched = move-Matches s (after c s) (after-Moves c s) h.matched;
      }

  unfoldable pub after_all : List Call → State → State
  after_all [] s = s
  after_all (c ∷ cs) s = after_all cs (after c s)

  after_all-Since :
      (start : ℕ) (locks : List LockRow) (cs : List Call) (s : State)
      → Since start locks s
      → Since start locks (after_all cs s)
  unfolding after_all
  after_all-Since start locks [] s h = h
  after_all-Since start locks (c ∷ cs) s h =
      after_all-Since start locks cs (after c s) (after-Since start locks c s h)

  -- In one process, after any calls of Resolve, SetSellerOverride and RemoveSellerOverride since
  -- its start, with statements that fail or not, Resolve of a registered key whose statements
  -- succeed answers what the tables say (the lock of all sellers, else that of the seller's type,
  -- else the seller's override, else the default of its type, else that of all), where the locks
  -- are those at the start during the first five seconds and none at all from then on.
  pub after_all-effective :
      (start now seller : ℕ) (key : String) (def : Definition) (db : Db) (cs : List Call)
      → definition_by_key key ≡ some def
      → (resolve no_faults now seller key (after_all cs (new_engine start db))).0
        ≡ ok (
            effective
              (in_force start now db.locks)
              (after_all cs (new_engine start db)).db
              seller
              def)
  after_all-effective start now seller key def db cs known =
      let s = after_all cs (new_engine start db) in
      let h : Since start db.locks s =
        after_all-Since start db.locks cs (new_engine start db) (new-Since start db) in
      let t = get_seller_type seller s.db in
      resolve-effective now seller key def (in_force start now db.locks) s known
        (ap (λ (m : Values). live now (m def.key)) h.all_sellers
          ∙ warm_global start now def.key db.locks)
        (ap (λ (m : String → Values). live now (m t def.key)) h.by_type
          ∙ warm_type start now t def.key db.locks)
        h.matched
