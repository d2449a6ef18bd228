-- ===== src/Pricing/Cards.antt =====
-- The choice of a rate card in backend/internal/pricing/pricing.go: a seller's own before its
-- type's before the common one.
use pikship.Prelude.{
  ℕ, ◌+◌, ◌≤◌, ◌<◌, ◌≡◌, refl, ap, sym, ◌∙◌, ◌⊎◌, inl, inr, Bool, if◌then◌else◌, true, false, none,
  some, List, [], ◌∷◌, arith, ◌==◌, ==→≡, ==-self, Bool-cases, ltb, str_eq, str_eq_self, str_eq→≡,
  Option-cases,
}
use mathlib.Core.List.{Memᴰ}
use mathlib.Core.Path.{subst}
use pikship.Prelude.Table.{select, any, select-holds}
use pikship.Prelude.Tx.{ok}
use pikship.Pricing.Engine.{
  Scope, Card, Db, QuoteInput, is_current, rank_scope, rank, at_rank, resolve_card,
}

-- No row of a rank below n.
none_below :
    {A : Type 0} (r : A → ℕ) (n : ℕ) (xs : List A)
    → any (λ x. ltb (r x) n) xs ≡ false
    → select (λ x. r x == n) xs ≡ none
    → any (λ x. ltb (r x) (n + 1)) xs ≡ false
none_below r n [] below gone = refl
none_below r n (x ∷ xs) below gone = ground (arith, none_below r n xs)

none_at_all : {A : Type 0} (r : A → ℕ) (xs : List A) → any (λ x. ltb (r x) 0) xs ≡ false
none_at_all r [] = refl
none_at_all r (x ∷ xs) = ground (arith, none_at_all r xs)

-- What `resolve_card` chose is of the rank n at which it was found, and no card is of a lower one.
chosen_at :
    (db : Db) (now n : ℕ) (req : QuoteInput) (c d : Card)
    → any (λ x. ltb (rank db now req x) n) db.cards ≡ false
    → at_rank db now req n ≡ some d
    → d ≡ c
    → n ≤ 2
    → (rank db now req c ≤ 2)
      × (any (λ x. ltb (rank db now req x) (rank db now req c)) db.cards ≡ false)
chosen_at db now n req c d below found same bound =
    let at : rank db now req c ≡ n =
      ap (rank db now req) (sym same)
      ∙ ==→≡ (rank db now req d) n (select-holds (λ x. rank db now req x == n) d db.cards found) in
    (rw at bound, rw at below)

-- What the query asks of a card, but for its scope.
pub record IsEligible (now : ℕ) (req : QuoteInput) (c : Card) : Type 0 where
  pub published : c.published ≡ true
  pub carrier : c.carrier_id ≡ req.carrier_id
  pub service : c.service_type ≡ req.service_type
  pub begun : c.effective_from ≤ now
  pub running : (t : ℕ) → c.effective_to ≡ some t → now < t

-- Scopes in reach of a seller, the narrowest at 0: its own, its type's, the common one.
abbrev pub Reaches : Db → QuoteInput → Scope → ℕ → Type 0
Reaches db req (Scope.of_seller s) n = (s ≡ req.seller_id) × (n ≡ 0)
Reaches db req (Scope.of_seller_type t) n = (db.seller_type req.seller_id ≡ some t) × (n ≡ 1)
Reaches db req Scope.pikshipp n = n ≡ 2

current-IsEligible :
    (now : ℕ) (req : QuoteInput) (c : Card) → is_current now req c ≡ true → IsEligible now req c
current-IsEligible now req c h = record {
  published = ground arith;
  carrier = ground arith;
  service = str_eq→≡ c.service_type req.service_type (ground arith);
  begun = ground arith;
  running = λ t e. ground (arith, e);
}

eligible_current :
    (now : ℕ) (req : QuoteInput) (c : Card) → IsEligible now req c → is_current now req c ≡ true
eligible_current now req c e = elim (Option-cases c.effective_to) [
  | inl endless ↦
      ground
        (arith, endless, e.published, e.carrier, e.begun, e.service, str_eq_self req.service_type)
  | inr (t, ends) ↦ ground (
    arith,
    ends,
    e.published,
    e.carrier,
    e.begun,
    e.service,
    str_eq_self req.service_type,
    e.running t ends,
  )
]

reach_scope :
    (db : Db) (req : QuoteInput) (sc : Scope)
    → rank_scope db.seller_type req.seller_id sc ≤ 2
    → Reaches db req sc (rank_scope db.seller_type req.seller_id sc)
reach_scope db req (Scope.of_seller s) h = (ground arith, ground arith)
reach_scope db req (Scope.of_seller_type t) h = elim (Option-cases (db.seller_type req.seller_id)) [
  | inl untyped ↦ absurd (ground (arith, untyped))
  | inr (k, typed) ↦ elim (Bool-cases (str_eq t k)) [
    | inl same ↦ (typed ∙ ap some (sym (str_eq→≡ t k same)), rw (typed, same) refl)
    | inr other ↦ absurd (ground (arith, typed))
  ]
]
reach_scope db req Scope.pikshipp h = refl

scope_reach :
    (db : Db) (req : QuoteInput) (sc : Scope) (n : ℕ)
    → Reaches db req sc n
    → rank_scope db.seller_type req.seller_id sc ≡ n
scope_reach db req (Scope.of_seller s) n h = ground (arith, h.0, ==-self s, h.1)
scope_reach db req (Scope.of_seller_type t) n h = rw (h.0, str_eq_self t) (sym h.1)
scope_reach db req Scope.pikshipp n h = sym h

-- A card that resolve_card finds has a rank, and no card has a lower one.
resolve_card-rank :
    (db : Db) (now : ℕ) (req : QuoteInput) (c : Card)
    → resolve_card db now req ≡ ok c
    → (rank db now req c ≤ 2)
      × (any (λ d. ltb (rank db now req d) (rank db now req c)) db.cards ≡ false)
unfolding resolve_card
resolve_card-rank db now req c h =
    let r : Card → ℕ = rank db now req in
    let b0 : any (λ x. ltb (r x) 0) db.cards ≡ false = none_at_all r db.cards in
    elim (Option-cases (at_rank db now req 0)) [
      | inr (d, own) ↦ chosen_at db now 0 req c d b0 own (ground (arith, h, own)) (omega arith)
      | inl no_own ↦
          let b1 : any (λ x. ltb (r x) 1) db.cards ≡ false = none_below r 0 db.cards b0 no_own in
          elim (Option-cases (at_rank db now req 1)) [
            | inr (d, own) ↦
                chosen_at db now 1 req c d b1 own (ground (arith, h, no_own, own)) (omega arith)
            | inl no_type ↦
                let b2 : any (λ x. ltb (r x) 2) db.cards ≡ false =
                  none_below r 1 db.cards b1 no_type in
                elim (Option-cases (at_rank db now req 2)) [
                  | inr (d, own) ↦
                      chosen_at db now 2 req c d b2 own (ground (arith, h, no_own, no_type, own))
                        (omega arith)
                  | inl nothing ↦ absurd (ground (arith, h, no_own, no_type, nothing))
                ]
          ]
    ]

selected : {A : Type 0} (p : A → Bool) (x : A) (xs : List A) → select p xs ≡ some x → Memᴰ x xs
selected p x [] h = cc
selected p x (y ∷ ys) h = elim (Bool-cases (p y)) [
  | inl hit ↦ Memᴰ.head (ground (arith, hit))
  | inr miss ↦ Memᴰ.tail (selected p x ys (ground (arith, miss)))
]

missed :
    {A : Type 0} (p : A → Bool) (x : A) (xs : List A) → Memᴰ x xs → any p xs ≡ false → p x ≡ false
missed p x [] m h = elim m [ ]
missed p x (y ∷ ys) (Memᴰ.head e) h = rw e (ground arith)
missed p x (y ∷ ys) (Memᴰ.tail m) h = missed p x ys m (ground arith)

-- A card is found, or none has a rank.
resolve_card_cases :
    (db : Db) (now : ℕ) (req : QuoteInput)
    → ((c : Card) × (resolve_card db now req ≡ ok c) × Memᴰ c db.cards)
      ⊎ (any (λ x. ltb (rank db now req x) 3) db.cards ≡ false)
unfolding resolve_card
resolve_card_cases db now req =
    let r : Card → ℕ = rank db now req in
    elim (Option-cases (at_rank db now req 0)) [
      | inr (d, own) ↦ inl (d, ground (arith, own), selected _ d db.cards own)
      | inl no_own ↦ elim (Option-cases (at_rank db now req 1)) [
        | inr (d, own) ↦ inl (d, ground (arith, no_own, own), selected _ d db.cards own)
        | inl no_type ↦ elim (Option-cases (at_rank db now req 2)) [
          | inr (d, own) ↦ inl (d, ground (arith, no_own, no_type, own), selected _ d db.cards own)
          | inl nothing ↦ inr (
              none_below r 2 db.cards
                (none_below r 1 db.cards (none_below r 0 db.cards (none_at_all r db.cards) no_own)
                  no_type)
                nothing)
        ]
      ]
    ]

rank_known :
    (db : Db) (now : ℕ) (req : QuoteInput) (c : Card)
    → rank db now req c ≤ 2
    → IsEligible now req c × Reaches db req c.scope (rank db now req c)
rank_known db now req c h = elim (Bool-cases (is_current now req c)) [
  | inl valid ↦ (
    current-IsEligible now req c valid,
    rw valid (
        reach_scope db req c.scope (
          subst (λ b. (if b then rank_scope db.seller_type req.seller_id c.scope else 3) ≤ 2) valid
            h)),
  )
  | inr stale ↦ absurd (ground (arith, stale))
]

reach_bound : (db : Db) (req : QuoteInput) (sc : Scope) (m : ℕ) → Reaches db req sc m → m ≤ 2
reach_bound db req (Scope.of_seller s) m h = ground (arith, h.1)
reach_bound db req (Scope.of_seller_type t) m h = ground (arith, h.1)
reach_bound db req Scope.pikshipp m h = ground (arith, h)

-- Where some card is published, current, of the carrier and service asked for and in reach of
-- the seller, resolve_card finds such a card, and one whose scope is at least as narrow: a
-- seller's own before its type's, and that before the common one.
pub resolve_card-prefers :
    (db : Db) (now m : ℕ) (req : QuoteInput) (d : Card)
    → Memᴰ d db.cards
    → IsEligible now req d
    → Reaches db req d.scope m
    → (c : Card) × (n : ℕ) × (resolve_card db now req ≡ ok c)
      × Memᴰ c db.cards
      × IsEligible now req c
      × Reaches db req c.scope n
      × (n ≤ m)
resolve_card-prefers db now m req d there eligible reach =
    let place : rank db now req d ≡ m =
      rw (eligible_current now req d eligible) (scope_reach db req d.scope m reach) in
    let low = reach_bound db req d.scope m reach in
    elim (resolve_card_cases db now req) [
      | inr nothing ↦
          let gone = missed (λ x. ltb (rank db now req x) 3) d db.cards there nothing in
          absurd (ground (arith, place, low, gone))
      | inl (c, is, known) ↦
          let (bound, least) = resolve_card-rank db now req c is in
          let (fine, near) = rank_known db now req c bound in
          let over =
            missed (λ x. ltb (rank db now req x) (rank db now req c)) d db.cards there least in
          (c, rank db now req c, is, known, fine, near, ground (arith, place, over))
    ]
