-- ===== src/Policy/Settings.antt =====
-- What a seller reads back (backend/internal/policy/service_impl.go) and what a notice does to
-- another process.
use pikship.Prelude.{
  ℕ, ◌≤◌, String, ◌≡◌, refl, sym, ap, ◌∙◌, false, Option, none, some, [], arith, str_eq, str_eq→≡,
  is_some,
}
use mathlib.Core.Path.{subst}
use pikship.Prelude.Table.{select-holds}
use pikship.Prelude.Tx.{ok}
use pikship.Policy.Values.{Value}
use pikship.Policy.Definitions.{Definition, definition_by_key, has_key, definitions}
use pikship.Policy.Cache.{
  TimedValue, Cache, live, global_lock, seller_type_lock, invalidate_global_lock,
  set_seller_override,
}
use pikship.Policy.Rows.{
  LockScopeKind, LockScope, OverrideRow, Db, get_seller_type, get_seller_override,
  upsert_seller_override,
}
use pikship.Policy.Resolve.{State, Faults, no_faults, resolve}
use pikship.Policy.Engine.{
  set_override, set_known, refuses, handle_notification, lock_notice, write_override,
}
use pikship.Policy.Effective.{effective, Matches, resolve-effective}
use pikship.Policy.Overrides.{get-upsert_same}
use pikship.Policy.Moves.{write-Moves}
use pikship.Policy.Runs.{move-Matches}

lapses :
    (now later : ℕ) (o : Option TimedValue)
    → now ≤ later
    → is_some (live now o) ≡ false
    → live later o ≡ none
lapses now later none le h = refl
lapses now later (some t) le h = ground arith

-- What a SetSellerOverride that succeeds has checked and done.
set_done :
    (seller_text : String) (faults : Faults) (now : ℕ) (row : OverrideRow) (o : Option Definition)
    (s : State)
    → faults.type_read ≡ false
    → (set_known faults now row seller_text o s).0 ≡ ok tt
    → (def : Definition) × (o ≡ some def)
      × (is_some (global_lock now row.key s.cache) ≡ false)
      × (is_some (seller_type_lock now (get_seller_type row.seller_id s.db) row.key s.cache)
          ≡ false)
      × ((set_known faults now row seller_text o s).1
          ≡ (write_override faults now row seller_text s).1)
      × (refuses faults row.value ≡ false)
set_done seller_text faults now row none s up done = cc
set_done seller_text faults now row (some def) s up done =
    (def, refl, ground arith, ground arith, ground arith, ground arith)

known_key : (key : String) (def : Definition) → definition_by_key key ≡ some def → key ≡ def.key
unfolding definition_by_key
known_key key def h = sym (str_eq→≡ def.key key (select-holds (has_key key) def definitions h))

effective_unlocked :
    (db : Db) (seller : ℕ) (def : Definition) (v : Value)
    → get_seller_override seller def.key db ≡ some v
    → effective [] db seller def ≡ v
unfolding effective
effective_unlocked db seller def v h = rw h refl

pub overrides_of :
    (seller : ℕ) (key : String) (d e : Db)
    → d.overrides ≡ e.overrides
    → get_seller_override seller key d ≡ get_seller_override seller key e
unfolding get_seller_override
overrides_of seller key d e h = rw h refl

written :
    (faults : Faults) (now : ℕ) (row : OverrideRow) (seller_text : String) (s : State)
    → refuses faults row.value ≡ false
    → let t = (write_override faults now row seller_text s).1 in
      (t.cache ≡ set_seller_override now row.seller_id row.key row.value s.cache)
      × (t.db.overrides ≡ (upsert_seller_override row s.db).overrides)
      × (t.db.sellers ≡ s.db.sellers)
unfolding upsert_seller_override
written faults now row seller_text s up = rw up (refl, refl, refl)

same_type :
    (seller : ℕ) (d e : Db)
    → d.sellers ≡ e.sellers
    → get_seller_type seller d ≡ get_seller_type seller e
unfolding get_seller_type
same_type seller d e h = rw h refl

module _ (seller_text : ℕ → String) where
  -- Where the cached overrides match the table and the seller's type can be read, a
  -- SetSellerOverride that succeeds is what Resolve answers for that seller and key at any later
  -- time, as long as no other call comes between.
  pub set_override-resolve :
      (faults : Faults) (now later : ℕ) (row : OverrideRow) (s : State)
      → Matches s
      → faults.type_read ≡ false
      → now ≤ later
      → (set_override seller_text faults now row s).0 ≡ ok tt
      → (resolve no_faults later row.seller_id row.key
          (set_override seller_text faults now row s).1).0
        ≡ ok row.value
  unfolding set_override set_seller_override
  set_override-resolve faults now later row s m up le done =
      let (def, known, g, t, is, fine) =
        set_done (seller_text row.seller_id) faults now row (definition_by_key row.key) s up done in
      let u = (write_override faults now row (seller_text row.seller_id) s).1 in
      let (cached, stored, sellers) = written faults now row (seller_text row.seller_id) s fine in
      let key : row.key ≡ def.key = known_key row.key def known in
      let there : get_seller_override row.seller_id def.key u.db ≡ some row.value =
        subst (λ k. get_seller_override row.seller_id k u.db ≡ some row.value) key
          (overrides_of row.seller_id row.key u.db (upsert_seller_override row s.db) stored
            ∙ get-upsert_same row s.db) in
      let matched : Matches u =
        move-Matches s u (write-Moves faults now row (seller_text row.seller_id) s) m in
      ap (λ (x : State). (resolve no_faults later row.seller_id row.key x).0) is
      ∙ resolve-effective later row.seller_id row.key def [] u known
          (ap (λ (c : Cache). live later (c.global_locks def.key)) cached
            ∙ ap (λ k. live later (s.cache.global_locks k)) (sym key)
            ∙ lapses now later (s.cache.global_locks row.key) le g)
          (ap
              (λ (c : Cache).
                live later (c.type_locks (get_seller_type row.seller_id u.db) def.key))
              cached
            ∙ ap (λ k. live later (s.cache.type_locks (get_seller_type row.seller_id u.db) k))
                (sym key)
            ∙ ap (λ k. live later (s.cache.type_locks k row.key))
                (same_type row.seller_id u.db s.db sellers)
            ∙ lapses now later (s.cache.type_locks (get_seller_type row.seller_id s.db) row.key) le
                t)
          matched
      ∙ ap ok (effective_unlocked u.db row.seller_id def row.value there)

module _ (parse_seller : String → Option ℕ) where
  -- The notice of a global lock leaves the lock of each named key in the cache of the process that
  -- receives it.
  pub notice_misses :
      (scope : LockScope) (key k : String) (c : Cache)
      → scope.kind ≡ LockScopeKind.global
      → scope.value ≡ ""
      → str_eq k "" ≡ false
      → (handle_notification parse_seller (lock_notice scope key) c).global_locks k
        ≡ c.global_locks k
  unfolding handle_notification invalidate_global_lock
  notice_misses scope key k c all empty named = rw (all, empty, named) refl
