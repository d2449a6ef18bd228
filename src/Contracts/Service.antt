-- ===== src/Contracts/Service.antt =====
-- Create, Activate and Terminate of backend/internal/contracts/contracts.go with the policy engine that
-- the terms are written to, on the pool of the administrator. The texts of ids and reasons are
-- parameters.
use pikship.Prelude.{ℕ, ◌+◌, String, Bool, Option, none, some, List, [], ◌∷◌, if◌then◌else◌}
use pikship.Prelude.Int.{ℤ}
use pikship.Prelude.Table.{select, update}
use pikship.Prelude.Tx.{not_found, plain, database, Result, ok, err}
use pikship.Policy.Values.{Value, text}
use pikship.Policy.Keys.{contract_active_id}
use pikship.Policy.Definitions.{Definition, definition_by_key}
use pikship.Policy.Rows.{Source, OverrideRow}
use pikship.Policy.Resolve
use pikship.Policy.Resolve.{Faults, no_faults}
use pikship.Policy.Engine.{set_override, remove_override}
use pikship.Contracts.Rows.{
  ContractState, Contract, State, Down, has_id, last_version, is_current, supersede, make_active,
  is_mine, collides, terms_of, end_contract, can_end,
}
use pikship.Contracts.Coerce.{value_for_type}

-- `Create`.
unfoldable pub create :
    ℕ → ℕ → ℕ → Option (List (String × Value)) → Option ℕ → ℕ → State → Result (Unit {0}) × State
create fresh seller by overrides rate_card from s = (
  ok tt,
  record s {
    contracts =
        record {
          id = fresh;
          seller_id = seller;
          version = last_version seller s.contracts + 1;
          state = ContractState.draft;
          rate_card_id = rate_card;
          policy_overrides = overrides;
          effective_from = from;
          effective_to = none;
          created_by = by;
          activated_by = none;
          activated_at = none;
          terminated_by = none;
          terminated_at = none;
          termination_reason = "";
        }
        ∷ s.contracts;
  },
)

abbrev pub superseded_in : Down → ℕ → ℕ → List Contract → List Contract
superseded_in down now seller cs =
    if down.supersede then cs else update (is_current seller) (supersede now) cs

abbrev pub stamp_of : Option (List (String × Value)) → String
stamp_of none = "contract activated (no terms)"
stamp_of (some _) = "contract active"

module _ (truncated : Value → Option ℤ) (strings_of : Value → Option (List String)) where
  module _ (seller_text id_text : ℕ → String) (activated_text : ℕ → ℕ → String) where
    abbrev pub term : ℕ → Option ℕ → String → String → Value → OverrideRow
    term seller who reason key v = record {
      seller_id = seller;
      key = key;
      value = v;
      source = Source.ops;
      reason = reason;
      set_by = who;
    }

    abbrev pub then_do :
        (pikship.Policy.Resolve.State → Result (Unit {0}) × pikship.Policy.Resolve.State)
        → Result (Unit {0}) × pikship.Policy.Resolve.State
        → Result (Unit {0}) × pikship.Policy.Resolve.State
    then_do next (err e, p) = (err e, p)
    then_do next (ok _, p) = next p

    abbrev pub set_value :
        Faults
        → ℕ
        → String
        → ℕ
        → Option ℕ
        → String
        → Option Value
        → pikship.Policy.Resolve.State
        → Result (Unit {0}) × pikship.Policy.Resolve.State
    set_value faults now why seller who key none p = (err plain, p)
    set_value faults now why seller who key (some v) p =
        set_override seller_text faults now (term seller who why key v) p

    -- A key that is not registered is skipped.
    abbrev pub set_term :
        Faults
        → ℕ
        → String
        → ℕ
        → Option ℕ
        → String
        → Value
        → Option Definition
        → pikship.Policy.Resolve.State
        → Result (Unit {0}) × pikship.Policy.Resolve.State
    set_term faults now why seller who key v none p = (ok tt, p)
    set_term faults now why seller who key v (some def) p =
        set_value faults now why seller who key
          (value_for_type truncated strings_of def.value_type v) p

    -- The loop of `applyTerms`, then the stamp. Go ranges over the map in any order.
    unfoldable pub set_terms :
        Faults
        → ℕ
        → String
        → String
        → ℕ
        → Option ℕ
        → ℕ
        → List (String × Value)
        → pikship.Policy.Resolve.State
        → Result (Unit {0}) × pikship.Policy.Resolve.State
    set_terms faults now why stamp seller who id [] p =
        set_override seller_text faults now
          (term seller who stamp contract_active_id (text (id_text id))) p
    set_terms faults now why stamp seller who id ((key, v) ∷ rest) p =
        then_do (set_terms faults now why stamp seller who id rest)
          (set_term faults now why seller who key v (definition_by_key key) p)

    abbrev pub with_policy :
        State → Result (Unit {0}) × pikship.Policy.Resolve.State → Result (Unit {0}) × State
    with_policy s (r, p) = (r, record s { policy = p })

    abbrev pub apply_terms :
        Faults → ℕ → ℕ → Option ℕ → Option Contract → State → Result (Unit {0}) × State
    apply_terms faults now seller who none s = (err not_found, s)
    apply_terms faults now seller who (some c) s = with_policy s (
        set_terms faults now (activated_text c.id c.version) (stamp_of c.policy_overrides) seller
          who c.id (terms_of c.policy_overrides) s.policy)

    abbrev pub activate_in :
        Down → Faults → ℕ → ℕ → ℕ → ℕ → Option ℕ → List Contract → State → Result (Unit {0}) × State
    activate_in down faults now seller id by who cs s =
        if down.mark
        then (err database, record s { contracts = cs })
        else if collides id seller cs
        then (err database, record s { contracts = cs })
        else apply_terms faults now seller who
            (select (has_id id) (update (is_mine id seller) (make_active now by) cs))
            (record s { contracts = update (is_mine id seller) (make_active now by) cs })

    -- `Activate`: an error of the first statement is dropped, and the contract is fetched by its id.
    unfoldable pub activate :
        Down → Faults → ℕ → ℕ → ℕ → ℕ → Option ℕ → State → Result (Unit {0}) × State
    activate down faults now seller id by who s =
        activate_in down faults now seller id by who (superseded_in down now seller s.contracts) s

module _ (seller_text : ℕ → String) where
  -- The errors of the removals are dropped.
  unfoldable pub remove_terms :
      Faults
      → ℕ
      → List (String × Value)
      → pikship.Policy.Resolve.State
      → pikship.Policy.Resolve.State
  remove_terms faults seller [] p =
      (remove_override seller_text faults seller contract_active_id p).1
  remove_terms faults seller ((key, _) ∷ rest) p =
      remove_terms faults seller rest (remove_override seller_text faults seller key p).1

  abbrev pub terminate_found :
      Bool → Faults → ℕ → ℕ → ℕ → String → ℕ → Option Contract → State → Result (Unit {0}) × State
  terminate_found down faults now seller id reason by none s = (err not_found, s)
  terminate_found down faults now seller id reason by (some c) s =
      if down then (err database, s) else (
        ok tt,
        record {
          contracts = update (can_end id seller) (end_contract now by reason) s.contracts;
          policy = remove_terms faults seller (terms_of c.policy_overrides) s.policy;
        },
      )

  -- `Terminate`.
  unfoldable pub terminate :
      Bool → Faults → ℕ → ℕ → ℕ → String → ℕ → State → Result (Unit {0}) × State
  terminate down faults now seller id reason by s =
      terminate_found down faults now seller id reason by (select (has_id id) s.contracts) s
