-- ===== src/Outbox/Examples.antt =====
-- Two pending events; the theorems applied to them.
use pikship.Prelude.{◌≡◌, refl, true, false, none, some, [], ◌∷◌, arith}
use pikship.Prelude.Table.{any, count}
use pikship.Outbox.Forwarder.{Event, State, is_pending, claim, forward}
use pikship.Outbox.Delivery.{is_job, polls, polls-deliver}
use pikship.Outbox.Lost.{here, forwards, lost_for_good}

abbrev booked : Event
booked = record {
  id = 1;
  seller_id = some 7;
  kind = "audit.write";
  version = 1;
  payload = "{}";
  occurred_at = 10;
  enqueued_at = none;
}

abbrev cancelled : Event
cancelled = record booked { id = 2 }

abbrev start : State
start = record { events = booked ∷ cancelled ∷ []; jobs = [] }

polls-deliver_example :
    (count is_pending (polls 1 (20 ∷ 21 ∷ []) start).events ≡ 0)
    × (any (is_job 2) (polls 1 (20 ∷ 21 ∷ []) start).jobs ≡ true)
polls-deliver_example = polls-deliver 1 2 (20 ∷ 21 ∷ []) start (omega arith) refl

lost_for_good_example :
    any (is_job 1) (forward 100 false false 21 (forward 100 false true 20 start).1).1.jobs ≡ false
unfolding claim
lost_for_good_example =
    lost_for_good 100 20 1 start (forward 100 false false 21 (forward 100 false true 20 start).1).1
      (omega arith) refl refl (forwards false false 21 here)
