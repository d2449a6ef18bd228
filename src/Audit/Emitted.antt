-- ===== src/Audit/Emitted.antt =====
-- How a chain verifies after Emit (backend/internal/audit/service_impl.go), and what verification
-- (backend/internal/audit/chain.go) can tell.
use Prim.Native.String.{len}
use Prim.Native.String.{◌++◌ as ◌⋅◌}
use text.Mathlib.TextPositions.{len-append}
use text.Mathlib.TextLemmas.{append_assoc}
use pikship.Prelude.{
  ℕ, String, ◌≡◌, refl, sym, ap, ◌∙◌, inl, inr, true, false, Option, none, some, List, arith,
  ==-self, ==→≡, str_eq, str_eq_self, str_eq→≡, if◌then◌else◌, Bool-cases,
}
use mathlib.Core.Path.{subst}
use pikship.Prelude.Tx.{plain, ok, err}
use pikship.Audit.Chain.{Actor, Event, Printing, prefix, suffix, hash_input, compute_event_hash}
use pikship.Audit.Service.{
  Row, admin, is_high_value, fill_defaults, same_chain, last_hash, as_stored, emit_filled, emit,
  events_of, hashes_of, verify_one,
}
use pikship.Audit.Intact.{snoc-intact, last_of-hashes}

same_chain→≡ : (a b : Option ℕ) → same_chain a b ≡ true → a ≡ b
same_chain→≡ none none h = refl
same_chain→≡ none (some b) h = cc
same_chain→≡ (some a) none h = cc
same_chain→≡ (some a) (some b) h = ap some (==→≡ a b h)

same_chain_self : (a : Option ℕ) → same_chain a a ≡ true
same_chain_self none = refl
same_chain_self (some a) = ==-self a

null_braces : (x s : String) → x ⋅ ("{}" ⋅ s) ≡ x ⋅ ("null" ⋅ s) → ⊥
null_braces x s h =
    let a = len-append x ("{}" ⋅ s) in
    let b = len-append "{}" s in
    let c = len-append x ("null" ⋅ s) in
    let d = len-append "null" s in let e = ap len h in omega arith

module _ (p : Printing) (hash : String → String) (stored_json : String → String)
    (stored_time : ℕ → ℕ) where
  -- The chain of the event verifies exactly when the stored event has the hash that was taken.
  filled-verifies :
      (e : Event) (rows : List Row)
      → verify_one p hash e.seller_id rows ≡ ok tt
      → verify_one p hash e.seller_id (emit_filled p hash stored_json stored_time admin e rows).1
        ≡ (if str_eq
              (compute_event_hash p hash
                (as_stored stored_json stored_time e)
                (last_hash e.seller_id rows))
              (compute_event_hash p hash e (last_hash e.seller_id rows))
            then ok tt
            else err plain)
  unfolding verify_one events_of hashes_of
  filled-verifies e rows good = rw (same_chain_self e.seller_id) (
      snoc-intact p hash (compute_event_hash p hash e (last_hash e.seller_id rows))
        (as_stored stored_json stored_time e) (events_of e.seller_id rows)
        (hashes_of e.seller_id rows) good
      ∙ ap
          (λ (x : String).
            if str_eq (compute_event_hash p hash (as_stored stored_json stored_time e) x)
              (compute_event_hash p hash e (last_hash e.seller_id rows))
            then ok tt
            else err plain)
          (last_of-hashes e.seller_id rows))

  filled-elsewhere :
      (seller : Option ℕ) (e : Event) (rows : List Row)
      → same_chain e.seller_id seller ≡ false
      → verify_one p hash seller (emit_filled p hash stored_json stored_time admin e rows).1
        ≡ verify_one p hash seller rows
  unfolding verify_one events_of hashes_of
  filled-elsewhere seller e rows apart = rw apart refl

  -- The stored event is hashed as the event was, where the column keeps the canonical form.
  stored_same :
      (e : Event) (json prev : String)
      → e.payload ≡ some json
      → p.canonical (stored_json json) ≡ p.canonical json
      → stored_time e.occurred_at ≡ e.occurred_at
      → compute_event_hash p hash (as_stored stored_json stored_time e) prev
        ≡ compute_event_hash p hash e prev
  unfolding compute_event_hash hash_input
  stored_same e json prev h j t = rw (h, t, j) refl

  -- Where every chain verifies, it still does after an Emit that the database takes, of an event
  -- that has a payload whose canonical form the column keeps and a time that the column keeps
  -- exactly.
  pub emit-verifies :
      (fresh now : ℕ) (who : Actor) (e : Event) (json : String) (rows : List Row)
      → e.payload ≡ some json
      → p.canonical (stored_json json) ≡ p.canonical json
      → stored_time (fill_defaults fresh now who e).occurred_at
        ≡ (fill_defaults fresh now who e).occurred_at
      → ((seller : Option ℕ) → verify_one p hash seller rows ≡ ok tt)
      → (seller : Option ℕ)
      → verify_one p hash seller (emit p hash stored_json stored_time admin fresh now who e rows).1
        ≡ ok tt
  unfolding emit
  emit-verifies fresh now who e json rows full kept whole good seller =
      let f = fill_defaults fresh now who e in
      elim (Bool-cases (is_high_value e.action)) [
        | inr low ↦ rw low (good seller)
        | inl high ↦ rw high (elim (Bool-cases (same_chain f.seller_id seller)) [
          | inr apart ↦ filled-elsewhere seller f rows apart ∙ good seller
          | inl mine ↦
              subst
                (λ s.
                  verify_one p hash s (emit_filled p hash stored_json stored_time admin f rows).1
                  ≡ ok tt)
                (same_chain→≡ f.seller_id seller mine)
                (filled-verifies f rows (good f.seller_id)
                  ∙ rw
                      (
                        stored_same f json (last_hash f.seller_id rows) full kept whole,
                        str_eq_self (compute_event_hash p hash f (last_hash f.seller_id rows)),
                      )
                      refl)
        ])
      ]

  payload_told :
      (e : Event) (prev : String)
      → p.canonical (stored_json "{}") ≡ "{}"
      → e.payload ≡ none
      → stored_time e.occurred_at ≡ e.occurred_at
      → hash_input p (as_stored stored_json stored_time e) prev ≡ hash_input p e prev
      → ⊥
  unfolding hash_input
  payload_told e prev braces empty whole same =
      let stored : hash_input p (as_stored stored_json stored_time e) prev
          ≡ prefix p e prev ⋅ ("{}" ⋅ suffix p e) =
        rw (empty, whole, braces) refl in
      let hashed : hash_input p e prev ≡ prefix p e prev ⋅ ("null" ⋅ suffix p e) = rw empty refl in
      null_braces (prefix p e prev) (suffix p e) (sym stored ∙ same ∙ hashed)

  -- Under a hash without collisions, an Emit of a high-value event without a payload that the
  -- database takes, with a time that the column keeps exactly, breaks a chain that verified: the
  -- hash is of null, and the column keeps an empty object, whose canonical form is {}.
  pub nil_payload_breaks :
      (fresh now : ℕ) (who : Actor) (e : Event) (rows : List Row)
      → ((s t : String) → hash s ≡ hash t → s ≡ t)
      → p.canonical (stored_json "{}") ≡ "{}"
      → e.payload ≡ none
      → stored_time (fill_defaults fresh now who e).occurred_at
        ≡ (fill_defaults fresh now who e).occurred_at
      → is_high_value e.action ≡ true
      → verify_one p hash e.seller_id rows ≡ ok tt
      → verify_one p hash e.seller_id
          (emit p hash stored_json stored_time admin fresh now who e rows).1
        ≡ err plain
  unfolding emit compute_event_hash
  nil_payload_breaks fresh now who e rows free braces empty whole high good =
      let f = fill_defaults fresh now who e in
      let last = last_hash f.seller_id rows in
      rw high (
        filled-verifies f rows good
        ∙ elim (Bool-cases (
            str_eq (compute_event_hash p hash (as_stored stored_json stored_time f) last)
              (compute_event_hash p hash f last))) [
                | inr told ↦ rw told refl
                | inl same ↦
                    absurd (payload_told f last braces empty whole (free _ _ (str_eq→≡ _ _ same)))
              ])

module _ (p : Printing) (hash : String → String) where
  -- A text moved from the beginning of the kind of the target to the end of the action leaves the
  -- hash of the event as it is.
  pub fields_run_together :
      (e : Event) (a k x prev : String)
      → compute_event_hash p hash
          (record e { action = a ⋅ x; target = record { kind = k; ref = e.target.ref } })
          prev
        ≡ compute_event_hash p hash
            (record e { action = a; target = record { kind = x ⋅ k; ref = e.target.ref } })
            prev
  unfolding compute_event_hash hash_input
  fields_run_together e a k x prev =
      let rest = e.target.ref ⋅ p.time_text e.occurred_at in
      rw (append_assoc a x (k ⋅ rest), append_assoc x k rest) refl
