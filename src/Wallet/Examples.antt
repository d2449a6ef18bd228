-- ===== src/Wallet/Examples.antt =====
-- Sample tables of the wallet, the theorems applied to them, and runs of the service.
use pikship.Prelude.{◌≡◌, refl, ◌⊎◌, none, some, [], ◌∷◌, arith}
use pikship.Prelude.Int.{pos, neg, ◌+ℤ◌, ◌-ℤ◌, ◌≤ℤ◌, ◌<ℤ◌}
use pikship.Prelude.Int64.{wrap}
use pikship.Prelude.Table.{select}
use pikship.Prelude.Tx.{ok, err, invalid_argument, permission_denied}
use pikship.Wallet.Rows.{AccountStatus, HoldStatus, Direction, Ref, Account, Hold, LedgerEntry, Db}
use pikship.Wallet.Repo.{
  owns, ensure_account, add_account, get_account_for_update, insert_ledger_entry, add_entry,
  update_balance, update_hold_total, insert_or_get_hold, take_over_hold, add_hold,
  get_hold_for_update, resolve_hold,
}
use pikship.Wallet.Service.{ensure, credit_account, debit_account, reserve, confirm}
use pikship.Wallet.Totals.{held_total, active_total, balance_total, posted_total}
use pikship.Wallet.Consistent.{IsConsistent}
use pikship.Wallet.Replays.{confirm_twice}
use pikship.Wallet.Breaks.{credit_replay_breaks, reserve_stale_breaks}
use pikship.Wallet.Guards.{reserve_outcome, debit_floor}
use pikship.Wallet.Runs.{
  Call, after, SameElsewhere, after-SameElsewhere, here, next, Reach-IsConsistent,
}

abbrev recharge : Ref
recharge = record { kind = "recharge"; id = "R1" }

abbrev booked : Ref
booked = record { kind = "shipment"; id = "S1" }

abbrev dropped : Ref
dropped = record { kind = "shipment"; id = "S2" }

abbrev unseen : Ref
unseen = record { kind = "shipment"; id = "S3" }

abbrev wallet : Account
wallet = record {
  id = 1;
  seller_id = 7;
  balance = pos 1000;
  hold_total = pos 300;
  credit_limit = pos 0;
  grace_amount = pos 500;
  status = AccountStatus.active;
}

abbrev open_hold : Hold
open_hold = record {
  id = 11;
  seller_id = 7;
  wallet_id = 1;
  amount = pos 300;
  status = HoldStatus.active;
  ref = booked;
  expires_at = 900;
  resolved_to = none;
}

abbrev old_hold : Hold
old_hold = record open_hold {
  id = 12;
  amount = pos 100;
  status = HoldStatus.released;
  ref = dropped;
}

abbrev first_entry : LedgerEntry
first_entry = record {
  id = 21;
  seller_id = 7;
  wallet_id = 1;
  direction = Direction.credit;
  amount = pos 1000;
  ref = recharge;
  reason = "recharge";
  actor = "seller";
}

abbrev tables : Db
tables = record {
  accounts = wallet ∷ [];
  holds = open_hold ∷ old_hold ∷ [];
  ledger = first_entry ∷ [];
  outbox = [];
}

abbrev empty : Db
empty = record { accounts = []; holds = []; ledger = []; outbox = [] }

tables-IsConsistent : IsConsistent tables
unfolding held_total active_total balance_total posted_total ◌+ℤ◌
tables-IsConsistent = record {
  one_account = λ s w. ground arith;
  one_hold = λ s i. ground arith;
  owned = λ s i h e. ground arith;
  amounts = λ s i h e. ground arith;
  held = λ w. ground arith;
  in_books = λ w. ground arith;
}

empty-IsConsistent : IsConsistent empty
unfolding held_total active_total balance_total posted_total
empty-IsConsistent = record {
  one_account = λ s w. omega arith;
  one_hold = λ s i. omega arith;
  owned = λ s i h e. cc;
  amounts = λ s i h e. absurd (cc);
  held = λ w. refl;
  in_books = λ w. refl;
}

abbrev opened : Db
opened = after 7 (Call.ensures 1) empty

Reach-IsConsistent_example :
    IsConsistent (after 7 (Call.credits 21 (pos 1000) recharge "recharge" "seller") opened)
unfolding after ensure ensure_account add_account
Reach-IsConsistent_example =
    Reach-IsConsistent
      (next 7 (Call.credits 21 (pos 1000) recharge "recharge" "seller")
        (next 7 (Call.ensures 1) here refl) refl)
      empty-IsConsistent

after-SameElsewhere_example : SameElsewhere 7 tables (after 7 (Call.releases 11) tables)
after-SameElsewhere_example = after-SameElsewhere 7 (Call.releases 11) tables

reserve_outcome_example :
    let (r, t) = reserve 13 100 7 (pos 700) unseen 60 tables in
    ((¬ (wallet.status ≡ AccountStatus.active)) × (r ≡ err permission_denied) × (t ≡ tables))
    ⊎ ((wallet.status ≡ AccountStatus.active)
        × (pos 1000 +ℤ pos 0 <ℤ pos 700 +ℤ pos 300)
        × (r ≡ err invalid_argument)
        × (t ≡ tables))
    ⊎ ((wallet.status ≡ AccountStatus.active)
        × (pos 700 +ℤ pos 300 ≤ℤ pos 1000 +ℤ pos 0)
        × (r ≡ ok 13)
        × (select (owns 7) t.accounts ≡ some (record wallet { hold_total = pos 300 +ℤ pos 700 }))
        × (t.holds
            ≡ record open_hold { id = 13; amount = pos 700; ref = unseen; expires_at = 160 }
              ∷ tables.holds)
        × (t.ledger ≡ tables.ledger))
unfolding wrap ◌+ℤ◌ ◌-ℤ◌
reserve_outcome_example =
    reserve_outcome 13 100 7 wallet (pos 700) unseen 60 tables refl refl refl refl (omega arith)
      (record { below = ground arith; above = ground arith })
      (record { below = ground arith; above = ground arith }) refl refl

debit_floor_example :
    (b : Account) × (select
        (owns 7)
        (debit_account 22 7 (pos 1500) unseen "charge" "system" tables).1.accounts
      ≡ some b)
    × (b.balance ≡ pos 1000 -ℤ pos 1500)
    × (neg (pos 500 +ℤ pos 0) ≤ℤ b.balance)
unfolding ◌+ℤ◌ ◌-ℤ◌ debit_account get_account_for_update insert_ledger_entry add_entry
    update_balance wrap neg
debit_floor_example =
    debit_floor 22 7 wallet (pos 1500) unseen "charge" "system" tables (omega arith) (omega arith)
      (omega arith) refl refl

confirm_twice_example :
    let t = (confirm 22 7 11 booked "charge" "system" tables).1 in
    confirm 23 7 11 unseen "charge" "system" t ≡ (ok tt, t)
unfolding confirm get_hold_for_update insert_ledger_entry add_entry resolve_hold update_balance
    update_hold_total wrap neg ◌+ℤ◌
confirm_twice_example = confirm_twice 22 23 7 11 booked unseen "charge" "system" tables refl refl

credit_replay_breaks_example :
    let t = (credit_account 22 7 (pos 1000) recharge "recharge" "seller" tables).1 in
    (a : Account) × (select (owns 7) tables.accounts ≡ some a)
    × (balance_total a.id t.accounts ≡ balance_total a.id tables.accounts +ℤ pos 1000)
    × (t.ledger ≡ tables.ledger)
    × (¬ IsConsistent t)
unfolding credit_account get_account_for_update insert_ledger_entry add_entry update_balance ◌+ℤ◌
credit_replay_breaks_example =
    credit_replay_breaks 22 7 (pos 1000) recharge "recharge" "seller" tables tables-IsConsistent
      refl refl

reserve_stale_breaks_example :
    let t = (reserve 13 100 7 (pos 100) dropped 60 tables).1 in
    (a : Account) × (select (owns 7) tables.accounts ≡ some a)
    × (held_total a.id t.accounts ≡ held_total a.id tables.accounts +ℤ pos 100)
    × (active_total a.id t.holds ≡ active_total a.id tables.holds)
    × (¬ IsConsistent t)
unfolding reserve get_account_for_update insert_or_get_hold take_over_hold update_hold_total wrap
    ◌+ℤ◌ ◌-ℤ◌
reserve_stale_breaks_example =
    reserve_stale_breaks 13 100 7 old_hold (pos 100) dropped 60 tables tables-IsConsistent refl refl
      refl

-- A reserve of more than is available is refused.
over_reserved : reserve 13 100 7 (pos 701) unseen 60 tables ≡ (err invalid_argument, tables)
unfolding reserve get_account_for_update insert_or_get_hold add_hold update_hold_total wrap ◌+ℤ◌
    ◌-ℤ◌
over_reserved = refl
