-- ===== src/Recon/Examples.antt =====
-- One discrepancy, posted; the theorems applied to it.
use pikship.Prelude.{ℕ, String, refl, false, none, some, [], ◌∷◌, arith}
use pikship.Prelude.Int.{pos}
use pikship.Wallet.Rows.{AccountStatus, Account}
use pikship.Recon.Service.{DisputeState, WeightDiscrepancy, Db, dispute, post}
use pikship.Recon.Final.{Holds, here, disputes, posts, Reach-Holds}

abbrev print : ℕ → String
print n = "D"

abbrev account : Account
account = record {
  id = 1;
  seller_id = 7;
  balance = pos 900;
  hold_total = pos 0;
  credit_limit = pos 0;
  grace_amount = pos 0;
  status = AccountStatus.active;
}

abbrev line : WeightDiscrepancy
line = record {
  id = 5;
  recon_batch_id = 2;
  seller_id = some 7;
  shipment_id = some 3;
  carrier_code = "delhivery";
  awb = "AWB1";
  declared_weight_g = 500;
  new_weight_g = 900;
  original_charge = pos 400;
  new_charge = pos 700;
  delta = pos 300;
  state = DisputeState.raised;
  dispute_window_until = 1000;
  disputed_at = none;
  dispute_reason = "";
  decided_at = none;
  decided_by = none;
  decision_reason = "";
  posted_at = none;
}

abbrev start : Db
start = record {
  rows = line ∷ [];
  wallet = record { accounts = account ∷ []; holds = []; ledger = []; outbox = [] };
}

abbrev refused : WeightDiscrepancy
refused = record line { state = DisputeState.rejected }

abbrev decided : Db
decided = record start { rows = refused ∷ [] }

decided-Holds : Holds 5 refused decided.rows
decided-Holds = record { one = λ k. ground arith; there = refl }

-- A rejected discrepancy is neither disputed again nor posted.
Reach-Holds_example :
    Holds 5 refused (dispute 62 5 "again" 7 (post print false 31 60 5 decided).1).1.rows
Reach-Holds_example =
    Reach-Holds print 5 refused refl (disputes 62 5 "again" 7 (posts false 31 60 5 here))
      decided-Holds
