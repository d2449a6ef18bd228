-- ===== src/Contracts/Signed.antt =====
-- What Activate (backend/internal/contracts/contracts.go) does to the contracts of a seller.
use pikship.Prelude.{
  ℕ, String, ◌≡◌, refl, ◌∙◌, inl, inr, Bool, true, false, ◌&&◌, not, Option, none, some, List, [],
  ◌∷◌, arith, Bool-cases,
}
use pikship.Prelude.Int.{ℤ}
use pikship.Prelude.Table.{update, any, any-update}
use pikship.Prelude.Tx.{ok}
use pikship.Policy.Values.{Value}
use pikship.Policy.Resolve.{Faults}
use pikship.Contracts.Rows.{
  Contract, State, Down, has_id, is_current, is_mine, make_active, supersede, collides,
}
use pikship.Contracts.Service.{superseded_in, activate_in, apply_terms, activate}

module _ {A : Type 0} where
  stays_none :
      (p q : A → Bool) (f : A → A)
      → ((x : A) → p x ≡ true → q (f x) ≡ false)
      → (xs : List A) → any q xs ≡ false
      → any q (update p f xs) ≡ false
  stays_none p q f step [] h = refl
  stays_none p q f step (x ∷ xs) h = ground (arith, step x, stays_none p q f step xs)

  becomes :
      (p q : A → Bool) (f : A → A)
      → ((x : A) → p x ≡ true → q (f x) ≡ true)
      → (xs : List A) → any p xs ≡ true
      → any q (update p f xs) ≡ true
  becomes p q f step [] h = cc
  becomes p q f step (x ∷ xs) h = ground (arith, step x, becomes p q f step xs)

made_active :
    (now by id seller : ℕ) (c : Contract)
    → is_mine id seller c ≡ true
    → (has_id id (make_active now by c) && is_current seller (make_active now by c)) ≡ true
made_active now by id seller c h = ground arith

made_active_no_rival :
    (now by id seller : ℕ) (c : Contract)
    → is_mine id seller c ≡ true
    → (is_current seller (make_active now by c) && not (has_id id (make_active now by c))) ≡ false
made_active_no_rival now by id seller c h = ground arith

mine_after_supersede :
    (down : Down) (now id seller : ℕ) (cs : List Contract)
    → any (is_mine id seller) (superseded_in down now seller cs) ≡ any (is_mine id seller) cs
mine_after_supersede down now id seller cs = elim (Bool-cases down.supersede) [
  | inl h ↦ rw h refl
  | inr h ↦ rw h (any-update (is_current seller) (is_mine id seller) (supersede now) (λ x. refl) cs)
]

no_collision :
    (id seller : ℕ) (cs : List Contract)
    → collides id seller cs ≡ false
    → any (is_mine id seller) cs ≡ true
    → any (λ c. is_current seller c && not (has_id id c)) cs ≡ false
no_collision id seller cs h mine = ground arith

module _ (truncated : Value → Option ℤ) (strings_of : Value → Option (List String)) where
  module _ (seller_text id_text : ℕ → String) (activated_text : ℕ → ℕ → String) where
    applied_contracts :
        (faults : Faults) (now seller : ℕ) (who : Option ℕ) (o : Option Contract) (s : State)
        → (apply_terms truncated strings_of seller_text id_text activated_text faults now seller who
            o s).1.contracts
          ≡ s.contracts
    applied_contracts faults now seller who none s = refl
    applied_contracts faults now seller who (some c) s = refl

    activated_in :
        (down : Down) (faults : Faults) (now seller id by : ℕ) (who : Option ℕ) (cs : List Contract)
        (s : State)
        → (activate_in truncated strings_of seller_text id_text activated_text down faults now
            seller id by who cs s).0
          ≡ ok tt
        → (collides id seller cs ≡ false)
          × ((activate_in truncated strings_of seller_text id_text activated_text down faults now
                seller id by who cs s).1.contracts
              ≡ update (is_mine id seller) (make_active now by) cs)
    activated_in down faults now seller id by who cs s done = elim (Bool-cases down.mark) [
      | inl h ↦ ground arith
      | inr h ↦ elim (Bool-cases (collides id seller cs)) [
        | inl hit ↦ ground arith
        | inr free ↦ (free, rw (h, free) (applied_contracts faults now seller who _ _))
      ]
    ]

    -- An Activate of one of the seller's contracts that succeeds leaves that contract active and the
    -- seller's only active one, whether the statement that supersedes the last one failed or not.
    pub activate_alone :
        (down : Down) (faults : Faults) (now seller id by : ℕ) (who : Option ℕ) (s : State)
        → any (is_mine id seller) s.contracts ≡ true
        → (activate truncated strings_of seller_text id_text activated_text down faults now seller
            id by who s).0
          ≡ ok tt
        → let t =
            (activate truncated strings_of seller_text id_text activated_text down faults now seller
              id by who s).1 in
          (any (λ c. has_id id c && is_current seller c) t.contracts ≡ true)
          × (any (λ c. is_current seller c && not (has_id id c)) t.contracts ≡ false)
    unfolding activate
    activate_alone down faults now seller id by who s mine done =
        let cs = superseded_in down now seller s.contracts in
        let (free, left) = activated_in down faults now seller id by who cs s done in
        let there : any (is_mine id seller) cs ≡ true =
          mine_after_supersede down now id seller s.contracts ∙ mine in
        rw left (
          becomes (is_mine id seller) (λ c. has_id id c && is_current seller c) (make_active now by)
              (made_active now by id seller) cs there,
          stays_none (is_mine id seller) (λ c. is_current seller c && not (has_id id c))
              (make_active now by) (made_active_no_rival now by id seller) cs
              (no_collision id seller cs free there),
        )
