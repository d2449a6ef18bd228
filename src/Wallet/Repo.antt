-- ===== src/Wallet/Repo.antt =====
-- backend/internal/wallet/repo.go: each query with the constraints and the row-level security of
-- its table (backend/migrations/0009_wallet.up.sql). `scope` is the seller of the transaction: a
-- query sees that seller's rows only.
use pikship.Prelude.{
  ℕ, Bool, true, false, ◌&&◌, not, Option, none, some, List, ◌∷◌, ◌==◌, if◌then◌else◌,
}
use pikship.Prelude.Int.{ℤ, pos, ◌+ℤ◌, ltb_ℤ}
use pikship.Prelude.Int64.{fits}
use pikship.Prelude.Table.{select, update, any}
use pikship.Prelude.Tx.{not_found, database, ok, Tx, ◌>>◌, pure, fail_if, or_fail, modify}
use pikship.Wallet.Rows.{
  AccountStatus, HoldStatus, Direction, credit, debit, Ref, ref_eq, Account, Hold, LedgerEntry, Db,
}

abbrev pub is_active : HoldStatus → Bool
is_active HoldStatus.active = true
is_active _ = false

abbrev pub direction_eq : Direction → Direction → Bool
direction_eq credit credit = true
direction_eq debit debit = true
direction_eq _ _ = false

abbrev pub owns : ℕ → Account → Bool
owns seller a = a.seller_id == seller

abbrev pub is_account : ℕ → ℕ → Account → Bool
is_account scope wallet a = a.id == wallet && a.seller_id == scope

abbrev pub is_hold : ℕ → ℕ → Hold → Bool
is_hold scope hold h = h.id == hold && h.seller_id == scope

-- The columns that the insert does not name take their defaults.
abbrev pub new_account : ℕ → ℕ → Account
new_account fresh seller = record {
  id = fresh;
  seller_id = seller;
  balance = pos 0;
  hold_total = pos 0;
  credit_limit = pos 0;
  grace_amount = pos 50000;
  status = AccountStatus.active;
}

unfoldable pub add_account : ℕ → ℕ → Tx Db (Unit {0})
add_account fresh seller db =
    (fail_if (any (λ (a : Account). a.id == fresh) db.accounts) database
        >> modify (λ t. record t { accounts = new_account fresh seller ∷ t.accounts }))
      db

-- ON CONFLICT (seller_id) DO NOTHING.
unfoldable pub ensure_account : ℕ → ℕ → Tx Db (Unit {0})
ensure_account fresh seller db =
    if any (owns seller) db.accounts then ok (tt, db) else add_account fresh seller db

unfoldable pub get_account_for_update : ℕ → Tx Db Account
get_account_for_update seller db = or_fail (select (owns seller) db.accounts) not_found db

unfoldable pub get_balance : ℕ → Tx Db Account
get_balance seller db = or_fail (select (owns seller) db.accounts) not_found db

abbrev pub add_balance : ℤ → Account → Account
add_balance delta a = record a { balance = a.balance +ℤ delta }

abbrev pub add_hold_total : ℤ → Account → Account
add_hold_total delta a = record a { hold_total = a.hold_total +ℤ delta }

-- A BIGINT that leaves its range is an error of the database.
unfoldable pub update_balance : ℕ → ℕ → ℤ → Tx Db (Unit {0})
update_balance scope wallet delta db =
    (fail_if (any (λ a. is_account scope wallet a && not (fits (a.balance +ℤ delta))) db.accounts)
          database
        >> modify (λ t. record t {
          accounts = update (is_account scope wallet) (add_balance delta) t.accounts;
        }))
      db

unfoldable pub update_hold_total : ℕ → ℕ → ℤ → Tx Db (Unit {0})
update_hold_total scope wallet delta db =
    (fail_if
          (any (λ a. is_account scope wallet a && not (fits (a.hold_total +ℤ delta))) db.accounts)
          database
        >> modify (λ t. record t {
          accounts = update (is_account scope wallet) (add_hold_total delta) t.accounts;
        }))
      db

abbrev pub same_event : Ref → Direction → LedgerEntry → Bool
same_event ref dir e = ref_eq e.ref ref && direction_eq e.direction dir

-- The insert of an entry with a new reference: its id must be new and its wallet exist.
unfoldable pub add_entry : LedgerEntry → Tx Db (Unit {0})
add_entry e db =
    (fail_if (any (λ (l : LedgerEntry). l.id == e.id) db.ledger) database
        >> fail_if (not (any (λ (a : Account). a.id == e.wallet_id) db.accounts)) database
        >> modify (λ t. record t { ledger = e ∷ t.ledger }))
      db

-- The row is checked against CHECK (amount_minor > 0) and the policy; an entry with its reference
-- and direction makes the insert do nothing.
unfoldable pub insert_ledger_entry : ℕ → LedgerEntry → Tx Db (Unit {0})
insert_ledger_entry scope e db =
    (fail_if (not (e.seller_id == scope)) database
        >> fail_if (not (ltb_ℤ (pos 0) e.amount)) database
        >> (if any (same_event e.ref e.direction) db.ledger then pure tt else add_entry e))
      db

abbrev pub has_ref : Ref → Hold → Bool
has_ref ref h = ref_eq h.ref ref

-- The row that the insert of a hold with this reference runs into, as far as it is visible.
abbrev pub conflicts : ℕ → Ref → Hold → Bool
conflicts scope ref h = has_ref ref h && h.seller_id == scope

-- SET id = CASE WHEN status = 'active' THEN wallet_hold.id ELSE EXCLUDED.id END.
abbrev pub kept_id : Hold → ℕ → ℕ
kept_id h fresh = if is_active h.status then h.id else fresh

abbrev pub set_id : ℕ → Hold → Hold
set_id fresh h = record h { id = kept_id h fresh }

-- The update that a conflict on the reference turns into. It needs the row to be visible.
unfoldable pub take_over_hold : ℕ → Hold → Hold → Tx Db ℕ
take_over_hold scope old new db =
    (fail_if (not (old.seller_id == scope)) database
        >> modify
            (λ t. record t { holds = update (conflicts scope new.ref) (set_id new.id) t.holds })
        >> pure (kept_id old new.id))
      db

unfoldable pub add_hold : Hold → Tx Db ℕ
add_hold new db =
    (fail_if (any (λ (h : Hold). h.id == new.id) db.holds) database
        >> fail_if (not (any (λ (a : Account). a.id == new.wallet_id) db.accounts)) database
        >> modify (λ t. record t { holds = new ∷ t.holds })
        >> pure new.id)
      db

unfoldable pub insert_or_get_hold : ℕ → Hold → Tx Db ℕ
insert_or_get_hold scope new db =
    (fail_if (not (new.seller_id == scope)) database
        >> fail_if (not (ltb_ℤ (pos 0) new.amount)) database
        >> elim (select (has_ref new.ref) db.holds) [
          | some old ↦ take_over_hold scope old new
          | none ↦ add_hold new
        ])
      db

unfoldable pub get_hold_for_update : ℕ → ℕ → Tx Db Hold
get_hold_for_update scope hold db = or_fail (select (is_hold scope hold) db.holds) not_found db

abbrev pub resolve : HoldStatus → Option ℕ → Hold → Hold
resolve status entry h = record h { status = status; resolved_to = entry }

-- The ledger entry that a resolved hold names must exist.
abbrev pub entry_missing : Option ℕ → List LedgerEntry → Bool
entry_missing none ledger = false
entry_missing (some e) ledger = not (any (λ (l : LedgerEntry). l.id == e) ledger)

unfoldable pub resolve_hold : ℕ → ℕ → HoldStatus → Option ℕ → Tx Db (Unit {0})
resolve_hold scope hold status entry db =
    (fail_if (entry_missing entry db.ledger) database
        >> modify
            (λ t. record t { holds = update (is_hold scope hold) (resolve status entry) t.holds }))
      db
