-- ===== src/Audit/Examples.antt =====
-- An event of a wallet; the theorems applied to it, under a hash that is the text itself.
use pikship.Prelude.{
  ℕ, String, str_eq, ◌||◌, if◌then◌else◌, ◌≡◌, refl, Option, none, some, List, [],
}
use pikship.Prelude.Tx.{plain, ok, err}
use pikship.Audit.Chain.{Actor, Event, Printing, verify_from, verify_chain}
use pikship.Audit.Service.{Row, admin, is_high_value, emit, events_of, hashes_of, verify_one}
use pikship.Audit.Emitted.{emit-verifies, nil_payload_breaks}

-- An object as it is sent, as jsonb prints it, and with its keys in order.
abbrev sent_json : String
sent_json = "{\"for\":\"S1\",\"amount\":5}"

abbrev stored_json : String → String
stored_json json = if str_eq json sent_json then "{\"for\": \"S1\", \"amount\": 5}" else json

abbrev sorted : String → String
sorted json =
    if str_eq json sent_json || str_eq json "{\"for\": \"S1\", \"amount\": 5}"
    then "{\"amount\":5,\"for\":\"S1\"}"
    else json

abbrev printing : Printing
printing = record {
  id_text = λ n. "i";
  time_text = λ n. "t";
  canonical = sorted;
  actor_json = λ kind ref. kind;
}

abbrev same : String → String
same s = s

abbrev kept : ℕ → ℕ
kept t = t

abbrev someone : Actor
someone = record { kind = "system"; ref = "cron"; ip_address = ""; user_agent = "" }

abbrev charged : Event
charged = record {
  id = 4;
  seller_id = some 7;
  actor = someone;
  action = "wallet.charged";
  target = record { kind = "wallet_account"; ref = "1" };
  payload = some sent_json;
  occurred_at = 3000;
}

abbrev no_rows : List Row
no_rows = []

no_rows_verify : (seller : Option ℕ) → verify_one printing same seller no_rows ≡ ok tt
unfolding verify_one events_of hashes_of verify_chain verify_from
no_rows_verify seller = refl

emit-verifies_example :
    verify_one printing same
      (some 7)
      (emit printing same stored_json kept admin 9 5000 someone charged no_rows).1
    ≡ ok tt
emit-verifies_example =
    emit-verifies printing same stored_json kept 9 5000 someone charged sent_json no_rows refl refl
      refl no_rows_verify (some 7)

abbrev bare : Event
bare = record charged { payload = none }

nil_payload_breaks_example :
    verify_one printing same
      (some 7)
      (emit printing same stored_json kept admin 9 5000 someone bare no_rows).1
    ≡ err plain
unfolding is_high_value verify_one events_of hashes_of verify_chain verify_from
nil_payload_breaks_example =
    nil_payload_breaks printing same stored_json kept 9 5000 someone bare no_rows (λ s t h. h) refl
      refl refl refl refl
