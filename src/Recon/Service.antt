-- ===== src/Recon/Service.antt =====
-- backend/internal/recon/recon.go with the wallet that it debits, on a pool that sees and writes the
-- rows of all sellers. `now` is the clock, `fresh` an id that is drawn and `dispute_text` prints an id.
use pikship.Prelude.{
  ℕ, ◌+◌, String, Bool, true, false, ◌&&◌, Option, none, some, List, ◌∷◌, ◌==◌, ltb, if◌then◌else◌,
}
use pikship.Prelude.Int.{ℤ, pos, ltb_ℤ}
use pikship.Prelude.Table.{select, update, any}
use pikship.Prelude.Tx.{not_found, database, Result, ok, err}
use pikship.Wallet.Rows.{Ref}
use pikship.Wallet.Rows
use pikship.Wallet.Service.{debit_account}

pub data DisputeState : Type 0 where
  raised disputed approved posted rejected : DisputeState

-- weight_discrepancy (backend/migrations/0016_recon.up.sql).
pub record WeightDiscrepancy : Type 0 where
  pub id : ℕ
  pub recon_batch_id : ℕ
  pub seller_id : Option ℕ
  pub shipment_id : Option ℕ
  pub carrier_code : String
  pub awb : String
  pub declared_weight_g : ℕ
  pub new_weight_g : ℕ
  pub original_charge : ℤ
  pub new_charge : ℤ
  pub delta : ℤ
  pub state : DisputeState
  pub dispute_window_until : ℕ
  pub disputed_at : Option ℕ
  pub dispute_reason : String
  pub decided_at : Option ℕ
  pub decided_by : Option ℕ
  pub decision_reason : String
  pub posted_at : Option ℕ

pub record Db : Type 0 where
  pub rows : List WeightDiscrepancy
  pub wallet : pikship.Wallet.Rows.Db

-- 7 days, in nanoseconds.
abbrev pub dispute_window : ℕ
dispute_window = 604_800_000_000_000

abbrev pub has_id : ℕ → WeightDiscrepancy → Bool
has_id id d = d.id == id

abbrev pub is_raised : DisputeState → Bool
is_raised DisputeState.raised = true
is_raised _ = false

abbrev pub is_disputed : DisputeState → Bool
is_disputed DisputeState.disputed = true
is_disputed _ = false

abbrev pub is_postable : DisputeState → Bool
is_postable DisputeState.raised = true
is_postable DisputeState.approved = true
is_postable _ = false

abbrev pub owned_by : ℕ → Option ℕ → Bool
owned_by seller none = false
owned_by seller (some s) = s == seller

-- `RaiseDiscrepancy`: the id, the state and the window are set by the statement. The id is the only
-- unique column.
unfoldable pub raise_discrepancy : ℕ → ℕ → WeightDiscrepancy → Db → Result (Unit {0}) × Db
raise_discrepancy fresh now d db = (
  ok tt,
  if any (has_id fresh) db.rows then db else record db {
    rows =
        record d {
          id = fresh;
          state = DisputeState.raised;
          dispute_window_until = now + dispute_window;
          disputed_at = none;
          dispute_reason = "";
          decided_at = none;
          decided_by = none;
          decision_reason = "";
          posted_at = none;
        }
        ∷ db.rows;
  },
)

abbrev pub can_dispute : ℕ → ℕ → ℕ → WeightDiscrepancy → Bool
can_dispute now id seller d =
    has_id id d
    && (owned_by seller d.seller_id && (is_raised d.state && ltb now d.dispute_window_until))

abbrev pub set_disputed : ℕ → String → WeightDiscrepancy → WeightDiscrepancy
set_disputed now reason d = record d {
  state = DisputeState.disputed;
  disputed_at = some now;
  dispute_reason = reason;
}

-- `Dispute`: no error where no row matches.
unfoldable pub dispute : ℕ → ℕ → String → ℕ → Db → Result (Unit {0}) × Db
dispute now id reason seller db = (
  ok tt,
  record db { rows = update (can_dispute now id seller) (set_disputed now reason) db.rows },
)

abbrev pub can_decide : ℕ → WeightDiscrepancy → Bool
can_decide id d = has_id id d && is_disputed d.state

abbrev pub set_decided : DisputeState → ℕ → String → ℕ → WeightDiscrepancy → WeightDiscrepancy
set_decided st now reason by d = record d {
  state = st;
  decided_at = some now;
  decided_by = some by;
  decision_reason = reason;
}

-- `Approve`.
unfoldable pub approve : ℕ → ℕ → String → ℕ → Db → Result (Unit {0}) × Db
approve now id reason by db = (
  ok tt,
  record db {
    rows = update (can_decide id) (set_decided DisputeState.approved now reason by) db.rows;
  },
)

-- `Reject`.
unfoldable pub reject : ℕ → ℕ → String → ℕ → Db → Result (Unit {0}) × Db
reject now id reason by db = (
  ok tt,
  record db {
    rows = update (can_decide id) (set_decided DisputeState.rejected now reason by) db.rows;
  },
)

abbrev pub can_post : ℕ → WeightDiscrepancy → Bool
can_post id d = has_id id d && is_postable d.state

abbrev pub set_posted : ℕ → WeightDiscrepancy → WeightDiscrepancy
set_posted now d = record d { state = DisputeState.posted; posted_at = some now }

-- The last statement of `Post`, which is not guarded by the state: `down` says that it fails.
abbrev pub mark_posted :
    Bool → ℕ → ℕ → Db → Result (Unit {0}) × pikship.Wallet.Rows.Db → Result (Unit {0}) × Db
mark_posted down now id db (err e, w) = (err e, record db { wallet = w })
mark_posted down now id db (ok _, w) =
    if down
    then (err database, record db { wallet = w })
    else (ok tt, record { rows = update (has_id id) (set_posted now) db.rows; wallet = w })

module _ (dispute_text : ℕ → String) where
  abbrev pub recon_ref : ℕ → Ref
  recon_ref id = record { kind = "weight_recon"; id = dispute_text id }

  -- A discrepancy without a seller, or in the seller's favour, costs nothing.
  abbrev pub charge :
      ℕ → ℕ → ℤ → Option ℕ → pikship.Wallet.Rows.Db → Result (Unit {0}) × pikship.Wallet.Rows.Db
  charge fresh id delta none w = (ok tt, w)
  charge fresh id delta (some seller) w =
      if ltb_ℤ (pos 0) delta
      then debit_account fresh seller delta (recon_ref id) "weight_discrepancy_charge" "system" w
      else (ok tt, w)

  abbrev pub post_found : Bool → ℕ → ℕ → ℕ → Option WeightDiscrepancy → Db → Result (Unit {0}) × Db
  post_found down fresh now id none db = (err not_found, db)
  post_found down fresh now id (some d) db =
      mark_posted down now id db (charge fresh id d.delta d.seller_id db.wallet)

  -- `Post`.
  unfoldable pub post : Bool → ℕ → ℕ → ℕ → Db → Result (Unit {0}) × Db
  post down fresh now id db = post_found down fresh now id (select (can_post id) db.rows) db
