-- ===== src/Wallet/Invariant.antt =====
-- The operations of backend/internal/wallet/service_impl.go keep the tables consistent, where the
-- reference of the call is new; the same reference again breaks them.
use pikship.Prelude.{
  ℕ, ◌+◌, String, ◌≡◌, refl, sym, ap, inl, inr, Bool, true, false, not, ◌&&◌, some, List, [], ◌∷◌,
  arith, ◌==◌, Option-cases,
}
use mathlib.Core.Path.{subst}
use pikship.Prelude.Int.{ℤ, pos, neg, ltb_ℤ, ltb_ℤ→pos}
use pikship.Prelude.Int64.{IsInt64, wrap, wrap-neg}
use pikship.Prelude.Table.{select, update, any, any-select, select-holds}
use pikship.Prelude.Tx.{Result}
use pikship.Wallet.Rows.{HoldStatus, credit, debit, Ref, Hold, Db}
use pikship.Wallet.Repo.{is_active, owns, is_hold, same_event, has_ref, conflicts, set_id}
use pikship.Wallet.Service.{
  entry, new_hold, credit_account, debit_account, reserve, confirm, release,
}
use pikship.Wallet.Effects.{
  IsNewEntry, IsNewHold, confirm_found, confirm_missing, release_found, release_missing,
  credit_found, credit_missing, debit_found, debit_missing, reserve_new, reserve_active,
  reserve_missing, with_event, effective_ttl,
}
use pikship.Wallet.Consistent.{
  IsAmount, IsConsistent, released-IsConsistent, confirmed-IsConsistent,
}
use pikship.Wallet.Postings.{posted-IsConsistent, reserved-IsConsistent}

hold_id :
    (seller hold : ℕ) (h : Hold) (db : Db)
    → select (is_hold seller hold) db.holds ≡ some h
    → h.id ≡ hold
hold_id seller hold h db found = ground (arith, select-holds (is_hold seller hold) h db.holds found)

pos-IsAmount : (x : ℤ) → ltb_ℤ (pos 0) x ≡ true → IsInt64 x → IsAmount x
pos-IsAmount x h r = record { positive = ltb_ℤ→pos x h; in_range = r }

with_event-IsConsistent :
    (seller : ℕ) (amount : ℤ) (hold : ℕ) (db : Db)
    → IsConsistent db
    → IsConsistent (with_event seller amount hold db)
with_event-IsConsistent seller amount hold db c = record {
  one_account = c.one_account;
  one_hold = c.one_hold;
  owned = c.owned;
  amounts = c.amounts;
  held = c.held;
  in_books = c.in_books;
}

-- Confirm keeps the tables consistent, whatever its answer; the new entry's id is unused.
pub confirm-IsConsistent :
    (fresh seller hold : ℕ) (ref : Ref) (reason actor : String) (db : Db)
    → IsNewEntry fresh db
    → IsConsistent db
    → IsConsistent (confirm fresh seller hold ref reason actor db).1
confirm-IsConsistent fresh seller hold ref reason actor db new c =
    elim (Option-cases (select (is_hold seller hold) db.holds)) [
      | inl gone ↦
          subst IsConsistent
            (sym (
              ap (λ (x : Result (Unit {0}) × Db). x.1)
                (confirm_missing fresh seller hold ref reason actor db gone)))
            c
      | inr (h, found) ↦ elim (confirm_found fresh seller hold h ref reason actor db new found) [
        | inl (same, why) ↦ subst IsConsistent (sym same) c
        | inr (live, unposted, done, effect) ↦ subst IsConsistent (sym effect) (
            confirmed-IsConsistent fresh seller hold h ref reason actor db c found
              (hold_id seller hold h db found) live)
      ]
    ]

-- Release keeps the tables consistent, whatever its answer.
pub release-IsConsistent :
    (seller hold : ℕ) (db : Db) → IsConsistent db → IsConsistent (release seller hold db).1
release-IsConsistent seller hold db c =
    elim (Option-cases (select (is_hold seller hold) db.holds)) [
      | inl gone ↦
          subst IsConsistent
            (sym (ap (λ (x : Result (Unit {0}) × Db). x.1) (release_missing seller hold db gone))) c
      | inr (h, found) ↦ elim (release_found seller hold h db found) [
        | inl (same, why) ↦ subst IsConsistent (sym same) c
        | inr (live, done, effect) ↦ subst IsConsistent (sym effect) (
            released-IsConsistent 0 seller hold h (record { kind = ""; id = "" }) "" "" db c found
              (hold_id seller hold h db found) live)
      ]
    ]

-- Credit keeps the tables consistent where its reference has no credit yet.
pub credit-IsConsistent :
    (fresh seller : ℕ) (amount : ℤ) (ref : Ref) (reason actor : String) (db : Db)
    → any (same_event ref credit) db.ledger ≡ false
    → IsConsistent db
    → IsConsistent (credit_account fresh seller amount ref reason actor db).1
credit-IsConsistent fresh seller amount ref reason actor db new c =
    elim (Option-cases (select (owns seller) db.accounts)) [
      | inl gone ↦
          subst IsConsistent (sym ((credit_missing fresh seller amount ref reason actor db gone).1))
            c
      | inr (a, found) ↦ elim (credit_found fresh seller a amount ref reason actor db found new) [
        | inl same ↦ subst IsConsistent (sym same) c
        | inr (done, effect) ↦ subst IsConsistent (sym effect) (
            posted-IsConsistent seller a db c found
              (entry fresh a.id seller credit amount ref reason actor) amount refl refl)
      ]
    ]

-- Debit keeps the tables consistent where its reference has no debit yet.
pub debit-IsConsistent :
    (fresh seller : ℕ) (amount : ℤ) (ref : Ref) (reason actor : String) (db : Db)
    → IsInt64 amount
    → any (same_event ref debit) db.ledger ≡ false
    → IsConsistent db
    → IsConsistent (debit_account fresh seller amount ref reason actor db).1
debit-IsConsistent fresh seller amount ref reason actor db range new c =
    elim (Option-cases (select (owns seller) db.accounts)) [
      | inl gone ↦
          subst IsConsistent (sym ((debit_missing fresh seller amount ref reason actor db gone).1))
            c
      | inr (a, found) ↦ elim (debit_found fresh seller a amount ref reason actor db found new) [
        | inl same ↦ subst IsConsistent (sym same) c
        | inr (done, positive, effect) ↦ subst IsConsistent (sym effect) (
            posted-IsConsistent seller a db c found
              (entry fresh a.id seller debit amount ref reason actor) (wrap (neg amount)) refl
              (sym (wrap-neg amount (ltb_ℤ→pos amount positive) range)))
      ]
    ]

-- A hold under `ref` that is not active any more.
abbrev pub is_stale : Ref → Hold → Bool
is_stale ref h = has_ref ref h && not (is_active h.status)

set_id_of_active :
    (seller : ℕ) (ref : Ref) (fresh : ℕ) (hs : List Hold)
    → any (is_stale ref) hs ≡ false
    → update (conflicts seller ref) (set_id fresh) hs ≡ hs
set_id_of_active seller ref fresh [] h = refl
set_id_of_active seller ref fresh (x ∷ hs) h = ground (arith, set_id_of_active seller ref fresh hs)

active_of_any :
    (ref : Ref) (old : Hold) (hs : List Hold)
    → any (is_stale ref) hs ≡ false
    → select (has_ref ref) hs ≡ some old
    → old.status ≡ HoldStatus.active
active_of_any ref old hs clean there = ground (
  arith,
  any-select (is_stale ref) (has_ref ref) old hs clean there,
  select-holds (has_ref ref) old hs there,
)

-- Reserve keeps the tables consistent where no resolved hold has its reference; the new hold's id
-- is unused.
pub reserve-IsConsistent :
    (fresh now seller : ℕ) (amount : ℤ) (ref : Ref) (ttl : ℕ) (db : Db)
    → IsInt64 amount
    → IsNewHold fresh db
    → any (is_stale ref) db.holds ≡ false
    → IsConsistent db
    → IsConsistent (reserve fresh now seller amount ref ttl db).1
reserve-IsConsistent fresh now seller amount ref ttl db range new clean c =
    elim (Option-cases (select (owns seller) db.accounts)) [
      | inl gone ↦
          subst IsConsistent (sym ((reserve_missing fresh now seller amount ref ttl db gone).1)) c
      | inr (a, found) ↦ elim (Option-cases (select (has_ref ref) db.holds)) [
        | inl unseen ↦ elim (reserve_new fresh now seller a amount ref ttl db found unseen) [
          | inl same ↦ subst IsConsistent (sym same) c
          | inr (done, covered, positive, unused, effect) ↦ subst IsConsistent (sym effect) (
              with_event-IsConsistent seller amount fresh _ (
                reserved-IsConsistent seller a db c found
                  (new_hold fresh a.id seller amount ref (now + effective_ttl ttl)) refl refl refl
                  (pos-IsAmount amount positive range) unused))
        ]
        | inr (old, there) ↦
            elim (reserve_active fresh now seller a old amount ref ttl db found there
              (active_of_any ref old db.holds clean there)
              (any-select (λ (h : Hold). h.id == fresh) (has_ref ref) old db.holds new there)) [
                | inl same ↦ subst IsConsistent (sym same) c
                | inr (done, effect) ↦ subst IsConsistent (sym effect) (
                    with_event-IsConsistent seller amount old.id _
                      (rw (set_id_of_active seller ref fresh db.holds clean) c))
              ]
      ]
    ]
