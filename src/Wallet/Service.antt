-- ===== src/Wallet/Service.antt =====
-- backend/internal/wallet/service_impl.go. `fresh` is the id that `uuid.New` gives, `now` the clock.
use pikship.Prelude.{ℕ, ◌+◌, String, Bool, ◌∷◌, none, some, ◌==◌, if◌then◌else◌}
use pikship.Prelude.Int.{ℤ, ◌+ℤ◌, ◌-ℤ◌, neg, ltb_ℤ}
use pikship.Prelude.Int64.{wrap}
use pikship.Prelude.Tx.{
  Error, invalid_argument, permission_denied, plain, Result, ok, err, Tx, ◌>>=◌, ◌>>◌, pure, fail,
  fail_if, with_seller_tx,
}
use pikship.Wallet.Rows.{
  AccountStatus, HoldStatus, Direction, credit, debit, Ref, Account, Hold, LedgerEntry, Db,
  BalanceView,
}
use pikship.Wallet.Repo.{
  ensure_account, get_account_for_update, get_balance, update_balance, update_hold_total,
  insert_ledger_entry, insert_or_get_hold, get_hold_for_update, resolve_hold,
}

-- The sentinels of service.go are other names of the core's.
abbrev pub insufficient_funds : Error
insufficient_funds = invalid_argument

abbrev pub account_frozen : Error
account_frozen = permission_denied

-- 10 minutes, in nanoseconds.
abbrev pub default_hold_ttl : ℕ
default_hold_ttl = 600_000_000_000

abbrev pub available : Account → ℤ
available a = wrap (wrap (a.balance +ℤ a.credit_limit) -ℤ a.hold_total)

-- `EnsureAccount`.
unfoldable pub ensure : ℕ → ℕ → Db → Result (Unit {0}) × Db
ensure fresh seller = with_seller_tx seller (ensure_account fresh seller)

pub balance : ℕ → Db → Result BalanceView
unfolding get_balance
balance seller db = elim (get_balance seller db) [
  | err e ↦ err e
  | ok (a, _) ↦ ok (record {
    seller_id = seller;
    balance = a.balance;
    hold_total = a.hold_total;
    available = available a;
    credit_limit = a.credit_limit;
    grace_amount = a.grace_amount;
    status = a.status;
  })
]

abbrev pub entry : ℕ → ℕ → ℕ → Direction → ℤ → Ref → String → String → LedgerEntry
entry id wallet seller dir amount ref reason actor = record {
  id = id;
  seller_id = seller;
  wallet_id = wallet;
  direction = dir;
  amount = amount;
  ref = ref;
  reason = reason;
  actor = actor;
}

abbrev pub credit_body : ℕ → ℕ → ℤ → Ref → String → String → Tx Db (Unit {0})
credit_body fresh seller amount ref reason actor = do
  a ← get_account_for_update seller
  insert_ledger_entry seller (entry fresh a.id seller credit amount ref reason actor)
  update_balance seller a.id amount

unfoldable pub credit_account : ℕ → ℕ → ℤ → Ref → String → String → Db → Result (Unit {0}) × Db
credit_account fresh seller amount ref reason actor =
    with_seller_tx seller (credit_body fresh seller amount ref reason actor)

abbrev pub new_hold : ℕ → ℕ → ℕ → ℤ → Ref → ℕ → Hold
new_hold id wallet seller amount ref expires_at = record {
  id = id;
  seller_id = seller;
  wallet_id = wallet;
  amount = amount;
  status = HoldStatus.active;
  ref = ref;
  expires_at = expires_at;
  resolved_to = none;
}

abbrev pub not_active_account : AccountStatus → Bool
not_active_account AccountStatus.active = Bool.false
not_active_account _ = Bool.true

abbrev pub reserve_body : ℕ → ℕ → ℕ → ℤ → Ref → ℕ → Tx Db ℕ
reserve_body fresh now seller amount ref ttl = do
  a ← get_account_for_update seller
  fail_if (not_active_account a.status) account_frozen
  fail_if (ltb_ℤ (available a) amount) insufficient_funds
  actual ← insert_or_get_hold seller (new_hold fresh a.id seller amount ref (now + ttl))
  if actual == fresh then update_hold_total seller a.id amount else pure tt
  pure actual

abbrev pub emit_hold_created : ℕ → ℤ → Result ℕ × Db → Result ℕ × Db
emit_hold_created seller amount (err e, db) = (err e, db)
emit_hold_created seller amount (ok hold, db) = (
  ok hold,
  record db {
    outbox =
        record {
          seller_id = seller;
          action = "wallet.hold_created";
          hold_id = hold;
          amount = amount;
        }
        ∷ db.outbox;
  },
)

unfoldable pub reserve : ℕ → ℕ → ℕ → ℤ → Ref → ℕ → Db → Result ℕ × Db
reserve fresh now seller amount ref ttl db = emit_hold_created seller amount (
    with_seller_tx seller
      (reserve_body fresh now seller amount ref (if ttl == 0 then default_hold_ttl else ttl)) db)

-- What `Confirm` does to a hold that it has read.
abbrev pub confirm_hold : ℕ → ℕ → Hold → HoldStatus → Ref → String → String → Tx Db (Unit {0})
confirm_hold fresh seller h HoldStatus.confirmed ref reason actor = pure tt
confirm_hold fresh seller h HoldStatus.active ref reason actor = do
  insert_ledger_entry seller (entry fresh h.wallet_id h.seller_id debit h.amount ref reason actor)
  resolve_hold seller h.id HoldStatus.confirmed (some fresh)
  update_balance seller h.wallet_id (wrap (neg h.amount))
  update_hold_total seller h.wallet_id (wrap (neg h.amount))
confirm_hold fresh seller h _ ref reason actor = fail plain

unfoldable pub confirm : ℕ → ℕ → ℕ → Ref → String → String → Db → Result (Unit {0}) × Db
confirm fresh seller hold ref reason actor =
    with_seller_tx seller (do
      h ← get_hold_for_update seller hold
      confirm_hold fresh seller h h.status ref reason actor)

abbrev pub release_hold : ℕ → Hold → HoldStatus → Tx Db (Unit {0})
release_hold seller h HoldStatus.released = pure tt
release_hold seller h HoldStatus.expired = pure tt
release_hold seller h HoldStatus.active = do
  resolve_hold seller h.id HoldStatus.released none
  update_hold_total seller h.wallet_id (wrap (neg h.amount))
release_hold seller h HoldStatus.confirmed = fail plain

unfoldable pub release : ℕ → ℕ → Db → Result (Unit {0}) × Db
release seller hold =
    with_seller_tx seller (do h ← get_hold_for_update seller hold; release_hold seller h h.status)

-- -(grace + credit limit): how far `Debit` lets the balance fall.
abbrev pub grace_floor : Account → ℤ
grace_floor a = wrap (neg (wrap (a.grace_amount +ℤ a.credit_limit)))

abbrev pub debit_body : ℕ → ℕ → ℤ → Ref → String → String → Tx Db (Unit {0})
debit_body fresh seller amount ref reason actor = do
  a ← get_account_for_update seller
  fail_if (ltb_ℤ (wrap (a.balance -ℤ amount)) (grace_floor a)) insufficient_funds
  insert_ledger_entry seller (entry fresh a.id seller debit amount ref reason actor)
  update_balance seller a.id (wrap (neg amount))

unfoldable pub debit_account : ℕ → ℕ → ℤ → Ref → String → String → Db → Result (Unit {0}) × Db
debit_account fresh seller amount ref reason actor =
    with_seller_tx seller (debit_body fresh seller amount ref reason actor)
