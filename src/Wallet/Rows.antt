-- ===== src/Wallet/Rows.antt =====
-- The rows of wallet_account, wallet_ledger_entry and wallet_hold
-- (backend/migrations/0009_wallet.up.sql) and the types of backend/internal/wallet/service.go.
use pikship.Prelude.{ℕ, String, Bool, ◌&&◌, Option, List, str_eq}
use pikship.Prelude.Int.{ℤ}

pub data AccountStatus : Type 0 where
  active frozen wound_down : AccountStatus

pub data HoldStatus : Type 0 where
  active confirmed released expired : HoldStatus

pub data Direction : Type 0 where
  credit debit : Direction

-- An idempotency reference: its type and the external id.
pub record Ref : Type 0 where
  pub kind : String
  pub id : String

abbrev pub ref_eq : Ref → Ref → Bool
ref_eq a b = str_eq a.kind b.kind && str_eq a.id b.id

pub record Account : Type 0 where
  pub id : ℕ
  pub seller_id : ℕ
  pub balance : ℤ
  pub hold_total : ℤ
  pub credit_limit : ℤ
  pub grace_amount : ℤ
  pub status : AccountStatus

pub record Hold : Type 0 where
  pub id : ℕ
  pub seller_id : ℕ
  pub wallet_id : ℕ
  pub amount : ℤ
  pub status : HoldStatus
  pub ref : Ref
  pub expires_at : ℕ
  pub resolved_to : Option ℕ

pub record LedgerEntry : Type 0 where
  pub id : ℕ
  pub seller_id : ℕ
  pub wallet_id : ℕ
  pub direction : Direction
  pub amount : ℤ
  pub ref : Ref
  pub reason : String
  pub actor : String

-- An event handed to the audit module.
pub record Emitted : Type 0 where
  pub seller_id : ℕ
  pub action : String
  pub hold_id : ℕ
  pub amount : ℤ

pub record Db : Type 0 where
  pub accounts : List Account
  pub holds : List Hold
  pub ledger : List LedgerEntry
  pub outbox : List Emitted

-- The view that `Balance` returns.
pub record BalanceView : Type 0 where
  pub seller_id : ℕ
  pub balance : ℤ
  pub hold_total : ℤ
  pub available : ℤ
  pub credit_limit : ℤ
  pub grace_amount : ℤ
  pub status : AccountStatus
