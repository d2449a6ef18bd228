-- ===== src/Audit/Service.antt =====
-- backend/internal/audit/high_value.go, service_impl.go, repo.go and jobs.go. `stored_time` is what a
-- column of type timestamptz keeps of a time, `stored_json` what a column of type jsonb, written by
-- json.Marshal, gives back of an object. The kinds and refs of actors and targets are taken to come back
-- as they were.
use Prim.Native.String.{slice, len}
use text.Mathlib.Text.{starts_with}
use pikship.Prelude.{
  ℕ, ◌+◌, ◌-◌, String, Bool, true, false, ◌||◌, Option, none, some, List, [], ◌∷◌, ◌==◌, str_eq,
  if◌then◌else◌, ◌++◌,
}
use pikship.Prelude.Table.{select, any}
use pikship.Prelude.Tx.{plain, database, Result, ok, err}
use pikship.Audit.Chain.{Actor, Event, Printing, compute_event_hash, verify_chain}

-- audit_event. The newest row comes first: its seq is one more than the greatest of its chain.
pub record Row : Type 0 where
  pub event : Event
  pub prev_hash : String
  pub event_hash : String
  pub seq : ℕ

-- pikshipp_app has a policy to SELECT on audit_event and none to INSERT.
pub data Role : Type 0 where
  app admin : Role

abbrev pub high_value_actions : List String
high_value_actions =
    "wallet." ∷ "cod.remitted" ∷ "weight_dispute." ∷ "seller.kyc_" ∷ "seller.suspended"
    ∷ "seller.reactivated" ∷ "seller.wound_down" ∷ "user.role_granted" ∷ "user.role_revoked"
    ∷ "user.locked" ∷ "ops.manual_adjustment" ∷ "ops.kyc_override" ∷ "ops.cross_seller_view"
    ∷ "policy.lock_set" ∷ "policy.lock_removed" ∷ "policy.seller_type_default_changed"
    ∷ "contract.signed" ∷ "contract.terminated" ∷ "contract.amended" ∷ "carrier.credential_rotated"
    ∷ []

abbrev pub last_byte : String → String
last_byte s = slice s (len s - 1) (len s)

-- An entry that ends in a dot or an underscore stands for all actions that begin with it.
abbrev pub covers : String → String → Bool
covers action entry =
    if str_eq (last_byte entry) "." || str_eq (last_byte entry) "_"
    then starts_with action entry
    else str_eq action entry

unfoldable pub is_high_value : String → Bool
is_high_value action = any (covers action) high_value_actions

-- `fillDefaults`; `who` is what `ActorFromContext` gives.
abbrev pub fill_defaults : ℕ → ℕ → Actor → Event → Event
fill_defaults fresh now who e = record e {
  id = if e.id == 0 then fresh else e.id;
  occurred_at = if e.occurred_at == 0 then now else e.occurred_at;
  actor = if str_eq e.actor.kind "" then who else e.actor;
}

abbrev pub same_chain : Option ℕ → Option ℕ → Bool
same_chain none none = true
same_chain (some a) (some b) = a == b
same_chain _ _ = false

abbrev pub in_chain : Option ℕ → Row → Bool
in_chain seller r = same_chain r.event.seller_id seller

abbrev pub hash_of : Option Row → String
hash_of none = ""
hash_of (some r) = r.event_hash

abbrev pub seq_of : Option Row → ℕ
seq_of none = 1
seq_of (some r) = r.seq + 1

-- `getLastChainHashTx`.
unfoldable pub last_hash : Option ℕ → List Row → String
last_hash seller rows = hash_of (select (in_chain seller) rows)

abbrev pub empty_object : Option String → Option String
empty_object none = some "{}"
empty_object (some json) = some json

abbrev pub read_back : (String → String) → Option String → Option String
read_back stored_json none = none
read_back stored_json (some json) = some (stored_json json)

-- What the columns keep of an event, as `listSellerEventsForVerification` reads it back.
abbrev pub as_stored : (String → String) → (ℕ → ℕ) → Event → Event
as_stored stored_json stored_time e = record e {
  payload = read_back stored_json (empty_object e.payload);
  occurred_at = stored_time e.occurred_at;
}

-- `insertEventTx`.
abbrev pub insert_event :
    (String → String)
    → (ℕ → ℕ)
    → Role
    → Event
    → String
    → String
    → List Row
    → Result (Unit {0}) × List Row
insert_event stored_json stored_time app e hash prev rows = (err database, rows)
insert_event stored_json stored_time admin e hash prev rows = (
  ok tt,
  record {
    event = as_stored stored_json stored_time e;
    prev_hash = prev;
    event_hash = hash;
    seq = seq_of (select (in_chain e.seller_id) rows);
  }
      ∷ rows,
)

-- The events and the hashes of a chain by ascending seq.
unfoldable pub events_of : Option ℕ → List Row → List Event
events_of seller [] = []
events_of seller (r ∷ rs) =
    if in_chain seller r then events_of seller rs ++ (r.event ∷ []) else events_of seller rs

unfoldable pub hashes_of : Option ℕ → List Row → List String
hashes_of seller [] = []
hashes_of seller (r ∷ rs) =
    if in_chain seller r then hashes_of seller rs ++ (r.event_hash ∷ []) else hashes_of seller rs

abbrev pub is_intact : Result (Unit {0}) → Bool
is_intact (ok _) = true
is_intact (err _) = false

-- `listAllSellerIDsForVerification`.
abbrev pub add_seller : Option ℕ → List ℕ → List ℕ
add_seller none ss = ss
add_seller (some s) ss = if any (λ k. k == s) ss then ss else s ∷ ss

abbrev pub sellers_of : List Row → List ℕ
sellers_of [] = []
sellers_of (r ∷ rs) = add_seller r.event.seller_id (sellers_of rs)

abbrev pub verdict : List ℕ → Result (Unit {0})
verdict [] = ok tt
verdict (_ ∷ _) = err plain

module _ (p : Printing) (hash : String → String) (stored_json : String → String)
    (stored_time : ℕ → ℕ) where
  abbrev pub emit_filled : Role → Event → List Row → Result (Unit {0}) × List Row
  emit_filled role e rows =
      insert_event stored_json stored_time role e
        (compute_event_hash p hash e (last_hash e.seller_id rows)) (last_hash e.seller_id rows) rows

  -- `Emit`.
  unfoldable pub emit : Role → ℕ → ℕ → Actor → Event → List Row → Result (Unit {0}) × List Row
  emit role fresh now who e rows =
      if is_high_value e.action
      then emit_filled role (fill_defaults fresh now who e) rows
      else (err plain, rows)

module _ (p : Printing) (hash : String → String) where
  -- `verifyOne`.
  unfoldable pub verify_one : Option ℕ → List Row → Result (Unit {0})
  verify_one seller rows = verify_chain p hash (events_of seller rows) (hashes_of seller rows)

  -- `VerifyAll`, over the sellers that have rows: a broken chain does not end the loop.
  unfoldable pub failures : List ℕ → List Row → List ℕ
  failures [] rows = []
  failures (s ∷ ss) rows =
      if is_intact (verify_one (some s) rows) then failures ss rows else s ∷ failures ss rows

  unfoldable pub verify_all : List Row → Result (Unit {0})
  verify_all rows = verdict (failures (sellers_of rows) rows)
