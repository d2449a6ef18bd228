-- ===== src/Contracts/Rows.antt =====
-- The contracts of backend/internal/contracts/contracts.go (backend/migrations/0017_contracts.up.sql)
-- and what its statements select and set.
use pikship.Prelude.{
  ℕ, String, Bool, true, false, ◌&&◌, not, Option, none, some, List, [], ◌∷◌, ◌==◌, ltb,
  if◌then◌else◌,
}
use pikship.Prelude.Table.{any}
use pikship.Policy.Values.{Value}
use pikship.Policy.Resolve
use pikship.Policy.Resolve.{Faults, no_faults}

pub data ContractState : Type 0 where
  draft active superseded terminated : ContractState

-- contract (backend/migrations/0017_contracts.up.sql); `policy_overrides` is that part of the terms,
-- `none` where they have no such object.
pub record Contract : Type 0 where
  pub id : ℕ
  pub seller_id : ℕ
  pub version : ℕ
  pub state : ContractState
  pub rate_card_id : Option ℕ
  pub policy_overrides : Option (List (String × Value))
  pub effective_from : ℕ
  pub effective_to : Option ℕ
  pub created_by : ℕ
  pub activated_by : Option ℕ
  pub activated_at : Option ℕ
  pub terminated_by : Option ℕ
  pub terminated_at : Option ℕ
  pub termination_reason : String

pub record State : Type 0 where
  pub contracts : List Contract
  pub policy : pikship.Policy.Resolve.State

-- Which of the statements on the table of contracts fail.
pub record Down : Type 0 where
  pub supersede : Bool
  pub mark : Bool

abbrev pub has_id : ℕ → Contract → Bool
has_id id c = c.id == id

abbrev pub owned_by : ℕ → Contract → Bool
owned_by seller c = c.seller_id == seller

abbrev pub is_active : ContractState → Bool
is_active ContractState.active = true
is_active _ = false

abbrev pub larger : ℕ → ℕ → ℕ
larger a b = if ltb a b then b else a

abbrev pub last_version : ℕ → List Contract → ℕ
last_version seller [] = 0
last_version seller (c ∷ cs) =
    if owned_by seller c then larger c.version (last_version seller cs) else last_version seller cs

abbrev pub is_current : ℕ → Contract → Bool
is_current seller c = owned_by seller c && is_active c.state

abbrev pub supersede : ℕ → Contract → Contract
supersede now c = record c { state = ContractState.superseded; effective_to = some now }

abbrev pub make_active : ℕ → ℕ → Contract → Contract
make_active now by c = record c {
  state = ContractState.active;
  activated_by = some by;
  activated_at = some now;
}

abbrev pub is_mine : ℕ → ℕ → Contract → Bool
is_mine id seller c = has_id id c && owned_by seller c

-- The index contract_one_active_per_seller refuses a second active contract.
abbrev pub collides : ℕ → ℕ → List Contract → Bool
collides id seller cs =
    any (is_mine id seller) cs && any (λ c. is_current seller c && not (has_id id c)) cs

abbrev pub terms_of : Option (List (String × Value)) → List (String × Value)
terms_of none = []
terms_of (some terms) = terms

abbrev pub end_contract : ℕ → ℕ → String → Contract → Contract
end_contract now by reason c = record c {
  state = ContractState.terminated;
  terminated_by = some by;
  terminated_at = some now;
  termination_reason = reason;
  effective_to = some now;
}

abbrev pub can_end : ℕ → ℕ → Contract → Bool
can_end id seller c = has_id id c && is_current seller c
