-- ===== src/Contracts/Terms.antt =====
-- What Terminate (backend/internal/contracts/contracts.go) does to the settings of a seller.
use pikship.Prelude.{
  ℕ, ◌≤◌, String, ◌≡◌, refl, sym, ◌∙◌, inl, inr, Bool, true, false, ◌&&◌, Option, none, some, List,
  [], ◌∷◌, arith, ◌==◌, ==→≡, str_eq, str_eq→≡, Bool-cases, is_some,
}
use pikship.Prelude.Table.{select, update, any, count}
use pikship.Prelude.Tx.{ok}
use pikship.Policy.Values.{Value}
use pikship.Policy.Keys.{contract_active_id}
use pikship.Policy.Definitions.{Definition, definition_by_key}
use pikship.Policy.Rows.{Db, get_seller_override, delete_seller_override}
use pikship.Policy.Resolve
use pikship.Policy.Resolve.{Faults}
use pikship.Policy.Engine.{remove_override, remove_known}
use pikship.Policy.Overrides.{get-delete_same, get-delete_other}
use pikship.Policy.Settings.{overrides_of}
use pikship.Contracts.Rows.{Contract, State, has_id, is_current, can_end, end_contract, terms_of}
use pikship.Contracts.Service.{remove_terms, terminate}

module _ {A : Type 0} where
  update_none : (p : A → Bool) (f : A → A) (xs : List A) → count p xs ≡ 0 → update p f xs ≡ xs
  update_none p f [] h = refl
  update_none p f (x ∷ xs) h = ground (arith, update_none p f xs)

  narrower_misses :
      (p q : A → Bool) → ((y : A) → q y ≡ true → p y ≡ true) → (y : A) → p y ≡ false → q y ≡ false
  narrower_misses p q narrower y h = ground (arith, narrower y)

  any_fewer :
      (p q : A → Bool)
      → ((y : A) → q y ≡ true → p y ≡ true)
      → (xs : List A) → count p xs ≡ 0
      → count q xs ≡ 0
  any_fewer p q narrower [] h = refl
  any_fewer p q narrower (y ∷ ys) h = ground (arith, narrower y, any_fewer p q narrower ys)

  -- No other row can match where the one that the wider test selects does not.
  none_matches :
      (p q : A → Bool) (x : A)
      → ((y : A) → q y ≡ true → p y ≡ true)
      → q x ≡ false
      → (xs : List A) → select p xs ≡ some x
      → count p xs ≤ 1
      → count q xs ≡ 0
  none_matches p q x narrower miss [] h one = refl
  none_matches p q x narrower miss (y ∷ ys) h one = elim (Bool-cases (p y)) [
    | inl hit ↦
        let found : y ≡ x = ground arith in
        let rest : count q ys ≡ 0 = any_fewer p q narrower ys (ground arith) in
        rw (found, miss) (omega arith)
    | inr apart ↦
        let rest : count q ys ≡ 0 =
          none_matches p q x narrower miss ys (ground arith) (ground arith) in
        let skip : q y ≡ false = narrower_misses p q narrower y apart in rw skip (omega arith)
  ]

abbrev pub names : String → List (String × Value) → Bool
names key terms = any (λ t. str_eq key t.0) terms

gone_stays :
    (s t : ℕ) (k l : String) (db : Db)
    → get_seller_override s k db ≡ none
    → get_seller_override s k (delete_seller_override t l db) ≡ none
gone_stays s t k l db h = elim (Bool-cases (s == t && str_eq k l)) [
  | inl same ↦
      rw (sym (==→≡ s t (ground arith)), sym (str_eq→≡ k l (ground arith))) (get-delete_same s k db)
  | inr apart ↦ get-delete_other s t k l db apart ∙ h
]

module _ (seller_text : ℕ → String) (faults : Faults) (seller : ℕ) where
  removed :
      (key : String) (o : Option Definition) (p : pikship.Policy.Resolve.State)
      → is_some o ≡ true
      → faults.write ≡ false
      → get_seller_override seller key (remove_known seller_text faults seller key o p).1.db ≡ none
  removed key none p h up = cc
  removed key (some def) p h up = rw up (
      overrides_of seller key _ (delete_seller_override seller key p.db) refl
      ∙ get-delete_same seller key p.db)

  absent_stays :
      (key k : String) (o : Option Definition) (p : pikship.Policy.Resolve.State)
      → get_seller_override seller key p.db ≡ none
      → get_seller_override seller key (remove_known seller_text faults seller k o p).1.db ≡ none
  absent_stays key k none p h = h
  absent_stays key k (some def) p h = elim (Bool-cases faults.write) [
    | inl down ↦ rw down h
    | inr up ↦ rw up (
        overrides_of seller key _ (delete_seller_override seller k p.db) refl
        ∙ gone_stays seller seller key k p.db h)
  ]

  absent_after :
      (key : String) (terms : List (String × Value)) (p : pikship.Policy.Resolve.State)
      → get_seller_override seller key p.db ≡ none
      → get_seller_override seller key (remove_terms seller_text faults seller terms p).db ≡ none
  unfolding remove_terms remove_override
  absent_after key [] p h =
      absent_stays key contract_active_id (definition_by_key contract_active_id) p h
  absent_after key ((k, v) ∷ rest) p h =
      absent_after key rest (remove_override seller_text faults seller k p).1
        (absent_stays key k (definition_by_key k) p h)

  -- The removals leave no override of a registered key that the terms name.
  terms_gone :
      (key : String) (terms : List (String × Value)) (p : pikship.Policy.Resolve.State)
      → faults.write ≡ false
      → is_some (definition_by_key key) ≡ true
      → names key terms ≡ true
      → get_seller_override seller key (remove_terms seller_text faults seller terms p).db ≡ none
  unfolding remove_terms remove_override
  terms_gone key [] p up known h = cc
  terms_gone key ((k, v) ∷ rest) p up known h = elim (Bool-cases (str_eq key k)) [
    | inl this ↦
        absent_after key rest (remove_override seller_text faults seller k p).1
          (rw (sym (str_eq→≡ key k this)) (removed key (definition_by_key key) p known up))
    | inr other ↦
        terms_gone key rest (remove_override seller_text faults seller k p).1 up known
          (ground arith)
  ]

  -- Where ids are unique and no statement fails, Terminate of a contract that is not active, or
  -- that is another seller's, succeeds, leaves every contract as it is, and removes the seller's
  -- override of each registered key that the terms of that contract name.
  pub terminate_removes :
      (now id by : ℕ) (reason key : String) (c : Contract) (s : State)
      → faults.write ≡ false
      → select (has_id id) s.contracts ≡ some c
      → count (has_id id) s.contracts ≤ 1
      → is_current seller c ≡ false
      → is_some (definition_by_key key) ≡ true
      → names key (terms_of c.policy_overrides) ≡ true
      → let (r, t) = terminate seller_text false faults now seller id reason by s in
        (r ≡ ok tt)
        × (t.contracts ≡ s.contracts)
        × (get_seller_override seller key t.policy.db ≡ none)
  unfolding terminate
  terminate_removes now id by reason key c s up found one idle known named =
      let nobody : count (can_end id seller) s.contracts ≡ 0 =
        none_matches (has_id id) (can_end id seller) c (λ y h. ground arith) (ground arith)
          s.contracts found one in
      rw found (
        refl,
        update_none (can_end id seller) (end_contract now by reason) s.contracts nobody,
        terms_gone key (terms_of c.policy_overrides) s.policy up known named,
      )
