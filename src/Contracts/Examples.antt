-- ===== src/Contracts/Examples.antt =====
-- A seller with an active contract and a draft of the next; the theorems applied to the draft,
-- and runs.
use pikship.Prelude.{
  ℕ, arith, String, ◌≡◌, refl, true, false, Option, none, some, List, [], ◌∷◌, is_some, ◌&&◌, not,
}
use pikship.Prelude.Table.{any}
use pikship.Prelude.Int.{ℤ, pos}
use pikship.Prelude.Tx.{ok}
use pikship.Policy.Values.{Value, number}
use pikship.Policy.Keys.{orders_per_day_limit}
use pikship.Policy.Definitions.{definitions, definition_by_key}
use pikship.Policy.Rows.{Source, get_seller_override}
use pikship.Policy.Cache.{new_cache, set_seller_override}
use pikship.Policy.Engine.{set_override}
use pikship.Policy.Resolve
use pikship.Policy.Resolve.{no_faults}
use pikship.Contracts.Rows.{ContractState, Contract, State, Down, has_id, is_current}
use pikship.Contracts.Coerce.{value_for_type}
use pikship.Contracts.Service.{create, activate, terminate, set_terms}
use pikship.Contracts.Signed.{activate_alone}
use pikship.Contracts.Terms.{terminate_removes}

abbrev seller_text : ℕ → String
seller_text n = "s"

abbrev id_text : ℕ → String
id_text n = "c"

abbrev activated_text : ℕ → ℕ → String
activated_text n v = "contract activated"

abbrev truncated : Value → Option ℤ
truncated (number n) = some n
truncated _ = none

abbrev strings_of : Value → Option (List String)
strings_of v = none

abbrev signed : ContractState → ℕ → ℕ → Contract
signed state id version = record {
  id = id;
  seller_id = 7;
  version = version;
  state = state;
  rate_card_id = none;
  policy_overrides = some ((orders_per_day_limit, number (pos 900)) ∷ []);
  effective_from = 5;
  effective_to = none;
  created_by = 1;
  activated_by = none;
  activated_at = none;
  terminated_by = none;
  terminated_at = none;
  termination_reason = "";
}

abbrev settings : pikship.Policy.Resolve.State
settings = record {
  cache = new_cache;
  db = record {
    sellers = [];
    overrides =
        record {
          seller_id = 7;
          key = orders_per_day_limit;
          value = number (pos 900);
          source = Source.ops;
          reason = "contract activated";
          set_by = none;
        }
        ∷ [];
    locks = [];
    notices = [];
    audited = [];
  };
}

abbrev next : Contract
next = signed ContractState.draft 32 2

abbrev books : State
books = record { contracts = next ∷ signed ContractState.active 31 1 ∷ []; policy = settings }

day_limit_known : is_some (definition_by_key orders_per_day_limit) ≡ true
unfolding definition_by_key definitions
day_limit_known = refl

terminate_removes_example :
    let (r, t) = terminate seller_text false no_faults 60 7 32 "no longer wanted" 1 books in
    (r ≡ ok tt)
    × (t.contracts ≡ books.contracts)
    × (get_seller_override 7 orders_per_day_limit t.policy.db ≡ none)
terminate_removes_example =
    terminate_removes seller_text no_faults 7 60 32 1 "no longer wanted" orders_per_day_limit next
      books refl refl (omega arith) refl day_limit_known refl

abbrev up : Down
up = record { supersede = false; mark = false }

abbrev states : List Contract → List ContractState
states [] = []
states (c ∷ cs) = c.state ∷ states cs

run_activate :
    let (r, t) =
      activate truncated strings_of seller_text id_text activated_text up no_faults 60 7 32 1 none
        books in
    (r ≡ ok tt) × (states t.contracts ≡ ContractState.active ∷ ContractState.superseded ∷ [])
unfolding activate set_terms value_for_type set_override set_seller_override definition_by_key
    definitions
run_activate = (refl, refl)

run_create :
    (create 33 7 1 none none 60 books).1.contracts
    ≡ record next { id = 33; version = 3; policy_overrides = none; effective_from = 60 }
      ∷ books.contracts
unfolding create
run_create = refl

activate_alone_example :
    let t =
      (activate truncated strings_of seller_text id_text activated_text up no_faults 60 7 32 1 none
        books).1 in
    (any (λ c. has_id 32 c && is_current 7 c) t.contracts ≡ true)
    × (any (λ c. is_current 7 c && not (has_id 32 c)) t.contracts ≡ false)
activate_alone_example =
    activate_alone truncated strings_of seller_text id_text activated_text up no_faults 60 7 32 1
      none books refl (run_activate.0)
