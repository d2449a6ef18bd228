-- ===== src/Audit/Intact.antt =====
-- What VerifyChain (backend/internal/audit/chain.go) accepts of what Emit has written.

use pikship.Prelude.{
  ℕ, ◌+◌, String, ◌≡◌, refl, inl, inr, true, Option, List, [], ◌∷◌, ◌++◌, arith, ◌==◌, str_eq,
  if◌then◌else◌, Bool-cases,
}
use pikship.Prelude.Tx.{plain, ok, err}
use pikship.Audit.Chain.{Event, Printing, compute_event_hash, verify_from, verify_chain, size}
use pikship.Audit.Service.{Row, in_chain, last_hash, hashes_of}

pub last_of : String → List String → String
last_of prev [] = prev
last_of prev (h ∷ hs) = last_of h hs

size-snoc : {A : Type 0} (xs : List A) (x : A) → size xs + 1 ≡ size (xs ++ (x ∷ []))
size-snoc [] x = refl
size-snoc (y ∷ ys) x = ground (arith, size-snoc ys x)

module _ (p : Printing) (hash : String → String) where
  -- An event at the end of a chain that verifies.
  verify-snoc :
      (prev h : String) (e : Event) (es : List Event) (hs : List String)
      → size es ≡ size hs
      → verify_from p hash prev es hs ≡ ok tt
      → verify_from p hash prev (es ++ (e ∷ [])) (hs ++ (h ∷ []))
        ≡ (if str_eq (compute_event_hash p hash e (last_of prev hs)) h then ok tt else err plain)
  unfolding verify_from last_of
  verify-snoc prev h e [] [] same good = refl
  verify-snoc prev h e [] (k ∷ hs) same good = cc
  verify-snoc prev h e (f ∷ es) [] same good = cc
  verify-snoc prev h e (f ∷ es) (k ∷ hs) same good =
      elim (Bool-cases (str_eq (compute_event_hash p hash f prev) k)) [
        | inr broken ↦ absurd (ground arith)
        | inl fits ↦ rw fits (verify-snoc k h e es hs (omega arith) (ground arith))
      ]

  pub snoc-intact :
      (h : String) (e : Event) (es : List Event) (hs : List String)
      → verify_chain p hash es hs ≡ ok tt
      → verify_chain p hash (es ++ (e ∷ [])) (hs ++ (h ∷ []))
        ≡ (if str_eq (compute_event_hash p hash e (last_of "" hs)) h then ok tt else err plain)
  unfolding verify_chain
  snoc-intact h e es hs good = elim (Bool-cases (size es == size hs)) [
    | inr apart ↦ absurd (ground arith)
    | inl same ↦
        let longer : (size (es ++ (e ∷ [])) == size (hs ++ (h ∷ []))) ≡ true =
          rw (← size-snoc es e, ← size-snoc hs h) (ground arith) in
        rw longer (verify-snoc "" h e es hs (ground arith) (ground arith))
  ]

last_of-snoc : (prev h : String) (hs : List String) → last_of prev (hs ++ (h ∷ [])) ≡ h
unfolding last_of
last_of-snoc prev h [] = refl
last_of-snoc prev h (k ∷ hs) = last_of-snoc k h hs

-- The hash that a new event is chained to is the last of the chain.
pub last_of-hashes :
    (seller : Option ℕ) (rows : List Row)
    → last_of "" (hashes_of seller rows) ≡ last_hash seller rows
unfolding hashes_of last_hash last_of
last_of-hashes seller [] = refl
last_of-hashes seller (r ∷ rs) = elim (Bool-cases (in_chain seller r)) [
  | inl mine ↦ rw mine (last_of-snoc "" r.event_hash (hashes_of seller rs))
  | inr other ↦ rw other (last_of-hashes seller rs)
]
