-- ===== src/Wallet/Effects.antt =====
-- What each operation of the wallet does to the tables: nothing, or one known effect.
use pikship.Prelude.{
  ℕ, ◌+◌, String, ◌≡◌, ◌⊎◌, inl, inr, Bool, true, false, none, some, ◌∷◌, arith, ◌==◌, ==-self,
  if◌then◌else◌, Bool-cases,
}
use pikship.Prelude.Int.{ℤ, pos, neg, ltb_ℤ}
use pikship.Prelude.Int64.{wrap}
use pikship.Prelude.Table.{select, update, any}
use pikship.Prelude.Tx.{is_ok, seller_scope, not_found, ok, err}
use pikship.Wallet.Rows.{HoldStatus, credit, debit, Ref, Account, Hold, LedgerEntry, Db}
use pikship.Wallet.Repo.{
  owns, is_account, is_hold, same_event, has_ref, conflicts, new_account, ensure_account,
  add_account, set_id, resolve, add_balance, add_hold_total, get_account_for_update,
  get_hold_for_update, insert_ledger_entry, add_entry, resolve_hold, update_balance,
  update_hold_total, insert_or_get_hold, take_over_hold, add_hold,
}
use pikship.Wallet.Service.{
  available, entry, new_hold, default_hold_ttl, emit_hold_created, ensure, credit_account,
  debit_account, reserve, confirm, release,
}

-- No ledger entry has the id that `uuid.New` gave.
abbrev pub IsNewEntry : ℕ → Db → Type 0
IsNewEntry fresh db = any (λ (l : LedgerEntry). l.id == fresh) db.ledger ≡ false

abbrev pub confirmed : ℕ → ℕ → Hold → Ref → String → String → Db → Db
confirmed fresh seller h ref reason actor db =
    let cash = wrap (neg h.amount) in
    let mine = is_account seller h.wallet_id in
    record db {
      accounts = update mine (add_hold_total cash) (update mine (add_balance cash) db.accounts);
      holds = update (is_hold seller h.id) (resolve HoldStatus.confirmed (some fresh)) db.holds;
      ledger = entry fresh h.wallet_id h.seller_id debit h.amount ref reason actor ∷ db.ledger;
    }

-- `Confirm` on a hold that it found: the tables are as before, or the active hold was confirmed.
pub confirm_found :
    (fresh seller hold : ℕ) (h : Hold) (ref : Ref) (reason actor : String) (db : Db)
    → IsNewEntry fresh db
    → select (is_hold seller hold) db.holds ≡ some h
    → let (r, t) = confirm fresh seller hold ref reason actor db in
      ((t ≡ db) × ((h.status ≡ HoldStatus.confirmed) ⊎ (is_ok r ≡ false)))
      ⊎ ((h.status ≡ HoldStatus.active)
          × (any (same_event ref debit) db.ledger ≡ false)
          × (r ≡ ok tt)
          × (t ≡ confirmed fresh seller h ref reason actor db))
unfolding confirm get_hold_for_update insert_ledger_entry add_entry resolve_hold update_balance
    update_hold_total
confirm_found fresh seller hold h ref reason actor db new found = ground (arith, ==-self fresh)

pub confirm_missing :
    (fresh seller hold : ℕ) (ref : Ref) (reason actor : String) (db : Db)
    → select (is_hold seller hold) db.holds ≡ none
    → confirm fresh seller hold ref reason actor db
      ≡ (err (if seller == 0 then seller_scope else not_found), db)
unfolding confirm get_hold_for_update
confirm_missing fresh seller hold ref reason actor db gone = ground arith

abbrev pub is_gone : HoldStatus → Bool
is_gone HoldStatus.released = true
is_gone HoldStatus.expired = true
is_gone _ = false

abbrev pub released : ℕ → Hold → Db → Db
released seller h db = record db {
  accounts =
      update (is_account seller h.wallet_id) (add_hold_total (wrap (neg h.amount))) db.accounts;
  holds = update (is_hold seller h.id) (resolve HoldStatus.released none) db.holds;
}

-- `Release` on a hold that it found: the tables are as before, or the active hold was released.
pub release_found :
    (seller hold : ℕ) (h : Hold) (db : Db)
    → select (is_hold seller hold) db.holds ≡ some h
    → let (r, t) = release seller hold db in
      ((t ≡ db) × ((is_gone h.status ≡ true) ⊎ (is_ok r ≡ false)))
      ⊎ ((h.status ≡ HoldStatus.active) × (r ≡ ok tt) × (t ≡ released seller h db))
unfolding release get_hold_for_update resolve_hold update_hold_total
release_found seller hold h db found = ground arith

pub release_missing :
    (seller hold : ℕ) (db : Db)
    → select (is_hold seller hold) db.holds ≡ none
    → release seller hold db ≡ (err (if seller == 0 then seller_scope else not_found), db)
unfolding release get_hold_for_update
release_missing seller hold db gone = ground arith

-- The tables after a posting that found no entry with its reference.
abbrev pub posted : ℕ → Account → LedgerEntry → ℤ → Db → Db
posted seller a e delta db = record db {
  accounts = update (is_account seller a.id) (add_balance delta) db.accounts;
  ledger = e ∷ db.ledger;
}

pub credit_found :
    (fresh seller : ℕ) (a : Account) (amount : ℤ) (ref : Ref) (reason actor : String) (db : Db)
    → select (owns seller) db.accounts ≡ some a
    → any (same_event ref credit) db.ledger ≡ false
    → let (r, t) = credit_account fresh seller amount ref reason actor db in
      (t ≡ db)
      ⊎ ((r ≡ ok tt)
          × (t
              ≡ posted seller a (entry fresh a.id seller credit amount ref reason actor) amount db))
unfolding credit_account get_account_for_update insert_ledger_entry add_entry update_balance
credit_found fresh seller a amount ref reason actor db found new = ground arith

pub credit_missing :
    (fresh seller : ℕ) (amount : ℤ) (ref : Ref) (reason actor : String) (db : Db)
    → select (owns seller) db.accounts ≡ none
    → (is_ok (credit_account fresh seller amount ref reason actor db).0 ≡ false)
      × ((credit_account fresh seller amount ref reason actor db).1 ≡ db)
unfolding credit_account get_account_for_update
credit_missing fresh seller amount ref reason actor db gone = ground arith

pub debit_found :
    (fresh seller : ℕ) (a : Account) (amount : ℤ) (ref : Ref) (reason actor : String) (db : Db)
    → select (owns seller) db.accounts ≡ some a
    → any (same_event ref debit) db.ledger ≡ false
    → let (r, t) = debit_account fresh seller amount ref reason actor db in
      (t ≡ db)
      ⊎ ((r ≡ ok tt)
          × (ltb_ℤ (pos 0) amount ≡ true)
          × (t
              ≡ posted seller a
                  (entry fresh a.id seller debit amount ref reason actor)
                  (wrap (neg amount))
                  db))
unfolding debit_account get_account_for_update insert_ledger_entry add_entry update_balance
debit_found fresh seller a amount ref reason actor db found new = ground arith

pub debit_missing :
    (fresh seller : ℕ) (amount : ℤ) (ref : Ref) (reason actor : String) (db : Db)
    → select (owns seller) db.accounts ≡ none
    → (is_ok (debit_account fresh seller amount ref reason actor db).0 ≡ false)
      × ((debit_account fresh seller amount ref reason actor db).1 ≡ db)
unfolding debit_account get_account_for_update
debit_missing fresh seller amount ref reason actor db gone = ground arith

-- No hold has the id that `uuid.New` gave.
abbrev pub IsNewHold : ℕ → Db → Type 0
IsNewHold fresh db = any (λ (h : Hold). h.id == fresh) db.holds ≡ false

-- The event that a successful `Reserve` emits.
abbrev pub with_event : ℕ → ℤ → ℕ → Db → Db
with_event seller amount hold db = (emit_hold_created seller amount (ok hold, db)).1

abbrev pub reserved : ℕ → Account → Hold → ℤ → Db → Db
reserved seller a h amount db = record db {
  accounts = update (is_account seller a.id) (add_hold_total amount) db.accounts;
  holds = h ∷ db.holds;
}

abbrev pub effective_ttl : ℕ → ℕ
effective_ttl ttl = if ttl == 0 then default_hold_ttl else ttl

-- `Reserve` under a reference that no hold has: nothing, or a new active hold.
pub reserve_new :
    (fresh now seller : ℕ) (a : Account) (amount : ℤ) (ref : Ref) (ttl : ℕ) (db : Db)
    → select (owns seller) db.accounts ≡ some a
    → select (has_ref ref) db.holds ≡ none
    → let (r, t) = reserve fresh now seller amount ref ttl db in
      (t ≡ db)
      ⊎ ((r ≡ ok fresh)
          × (ltb_ℤ (available a) amount ≡ false)
          × (ltb_ℤ (pos 0) amount ≡ true)
          × (IsNewHold fresh db)
          × (t
              ≡ with_event seller amount fresh (
                  reserved seller a
                    (new_hold fresh a.id seller amount ref (now + effective_ttl ttl))
                    amount
                    db)))
unfolding reserve get_account_for_update insert_or_get_hold add_hold update_hold_total
reserve_new fresh now seller a amount ref ttl db found new = ground (arith, ==-self fresh)

-- `Reserve` under the reference of an active hold: nothing but an event, and that hold's id.
pub reserve_active :
    (fresh now seller : ℕ) (a : Account) (old : Hold) (amount : ℤ) (ref : Ref) (ttl : ℕ) (db : Db)
    → select (owns seller) db.accounts ≡ some a
    → select (has_ref ref) db.holds ≡ some old
    → old.status ≡ HoldStatus.active
    → (old.id == fresh) ≡ false
    → let (r, t) = reserve fresh now seller amount ref ttl db in
      (t ≡ db)
      ⊎ ((r ≡ ok old.id)
          × (t
              ≡ with_event seller amount old.id
                  (record db { holds = update (conflicts seller ref) (set_id fresh) db.holds })))
unfolding reserve get_account_for_update insert_or_get_hold take_over_hold update_hold_total
reserve_active fresh now seller a old amount ref ttl db found there live other =
    ground (arith, ==-self fresh)

pub reserve_missing :
    (fresh now seller : ℕ) (amount : ℤ) (ref : Ref) (ttl : ℕ) (db : Db)
    → select (owns seller) db.accounts ≡ none
    → (is_ok (reserve fresh now seller amount ref ttl db).0 ≡ false)
      × ((reserve fresh now seller amount ref ttl db).1 ≡ db)
unfolding reserve get_account_for_update
reserve_missing fresh now seller amount ref ttl db gone = ground arith

-- `EnsureAccount`: the tables are as before, or there is a new account with an unused id.
pub ensure-cases :
    (fresh seller : ℕ) (db : Db)
    → let t = (ensure fresh seller db).1 in
      (t ≡ db)
      ⊎ ((any (λ (a : Account). a.id == fresh) db.accounts ≡ false)
          × (t ≡ record db { accounts = new_account fresh seller ∷ db.accounts }))
unfolding ensure ensure_account add_account
ensure-cases fresh seller db = elim (Bool-cases (seller == 0)) [
  | inl unscoped ↦ inl (rw unscoped)
  | inr scoped ↦ elim (Bool-cases (any (owns seller) db.accounts)) [
    | inl there ↦ inl (rw (scoped, there))
    | inr new ↦ elim (Bool-cases (any (λ (a : Account). a.id == fresh) db.accounts)) [
      | inl used ↦ inl (rw (scoped, new, used))
      | inr unused ↦ inr (unused, rw (scoped, new, unused))
    ]
  ]
]
