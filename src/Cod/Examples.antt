-- ===== src/Cod/Examples.antt =====
-- One shipment to collect for; the theorems applied to it.
use Prim.Native.Char.{Char}
use text.Mathlib.TextBridge.{to_list, of_list, to_list-of_list}
use pikship.Prelude.{
  ℕ, zero, suc, String, ◌≡◌, refl, sym, ap, ◌∙◌, true, false, none, some, List, [], ◌∷◌, arith,
  str_eq, str_eq→≡,
}
use pikship.Prelude.Int.{pos, ◌+ℤ◌}
use pikship.Prelude.Table.{select}
use pikship.Prelude.Tx.{plain, err}
use pikship.Wallet.Rows.{AccountStatus, Account, credit}
use pikship.Wallet.Repo.{
  owns, get_account_for_update, insert_ledger_entry, add_entry, update_balance,
}
use pikship.Wallet.Service.{credit_account}
use pikship.Wallet.Totals.{held_total, active_total, balance_total, posted_total}
use pikship.Wallet.Consistent.{IsConsistent}
use pikship.Cod.Service.{CodState, CodShipment, Db, register, mark_collected, get, cod_ref, remit}
use pikship.Cod.Settled.{IsSettled}
use pikship.Cod.Runs.{here, registers, collects, remits, Reach-IsSettled}
use pikship.Cod.Retries.{remit_once, remit_retry_breaks}

-- Ids printed as strokes.
abbrev strokes : ℕ → List Char
strokes zero = []
strokes (suc n) = "|" ∷ strokes n

abbrev print : ℕ → String
print n = of_list (strokes n)

strokes_apart : (i k : ℕ) → strokes i ≡ strokes k → i ≡ k
strokes_apart zero zero h = refl
strokes_apart zero (suc k) h = cc
strokes_apart (suc i) zero h = cc
strokes_apart (suc i) (suc k) h = ap suc (strokes_apart i k cc)

print_apart : (i k : ℕ) → str_eq (print i) (print k) ≡ true → i ≡ k
print_apart i k h = strokes_apart i k (
    sym (to_list-of_list (strokes i))
    ∙ ap to_list (str_eq→≡ (print i) (print k) h)
    ∙ to_list-of_list (strokes k))

abbrev account : Account
account = record {
  id = 1;
  seller_id = 7;
  balance = pos 0;
  hold_total = pos 0;
  credit_limit = pos 0;
  grace_amount = pos 0;
  status = AccountStatus.active;
}

abbrev start : Db
start = record {
  cods = [];
  wallet = record { accounts = account ∷ []; holds = []; ledger = []; outbox = [] };
}

start-IsConsistent : IsConsistent start.wallet
unfolding held_total active_total balance_total posted_total ◌+ℤ◌
start-IsConsistent = record {
  one_account = λ s w. ground arith;
  one_hold = λ s i. omega arith;
  owned = λ s i h e. cc;
  amounts = λ s i h e. absurd (cc);
  held = λ w. ground arith;
  in_books = λ w. ground arith;
}

start-IsSettled : IsSettled print start
start-IsSettled = record { books = start-IsConsistent; one = λ id. omega arith; paid = λ id h. cc }

abbrev due : Db
due = (mark_collected 7 3 (pos 480) 50 (register 7 3 9 "delhivery" (pos 500) start).1).1

Reach-IsSettled_example : IsSettled print (remit print false 31 60 7 3 due).1
unfolding register mark_collected
Reach-IsSettled_example =
    Reach-IsSettled print print_apart
      (remits 31 60 7 3 (collects 7 3 (pos 480) 50 (registers 7 3 9 "delhivery" (pos 500) here)))
      start-IsSettled

remit_once_example :
    remit print true 32 61 7 3 (remit print false 31 60 7 3 due).1
    ≡ (err plain, (remit print false 31 60 7 3 due).1)
unfolding remit get register mark_collected credit_account get_account_for_update
    insert_ledger_entry add_entry update_balance ◌+ℤ◌
remit_once_example = remit_once print true 31 60 32 61 7 3 due refl

due-IsSettled : IsSettled print due
due-IsSettled =
    Reach-IsSettled print print_apart
      (collects 7 3 (pos 480) 50 (registers 7 3 9 "delhivery" (pos 500) here)) start-IsSettled

abbrev collected_row : CodShipment
collected_row = record {
  shipment_id = 3;
  seller_id = 7;
  order_id = 9;
  carrier_code = "delhivery";
  state = CodState.collected;
  expected_amount = pos 500;
  carrier_reported = some (pos 480);
  delivered_at = some 50;
  remitted_at = none;
}

remit_retry_breaks_example :
    let u = (remit print false 32 61 7 3 (remit print true 31 60 7 3 due).1).1.wallet in
    (a : Account) × (select (owns 7) due.wallet.accounts ≡ some a)
    × (balance_total a.id u.accounts
        ≡ (balance_total a.id due.wallet.accounts +ℤ pos 480) +ℤ pos 480)
    × (u.ledger
        ≡ record {
          id = 31;
          seller_id = 7;
          wallet_id = a.id;
          direction = credit;
          amount = pos 480;
          ref = cod_ref print 3;
          reason = "cod_remittance";
          actor = "system";
        }
          ∷ due.wallet.ledger)
    × (¬ IsConsistent u)
unfolding remit get register mark_collected credit_account get_account_for_update
    insert_ledger_entry add_entry update_balance ◌+ℤ◌
remit_retry_breaks_example =
    remit_retry_breaks print 31 60 32 61 7 3 collected_row due due-IsSettled refl refl refl refl
