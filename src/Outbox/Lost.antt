-- ===== src/Outbox/Lost.antt =====
-- What becomes of events that were claimed for jobs that the queue did not take
-- (backend/internal/outbox/forwarder.go).
use pikship.Prelude.{
  ℕ, zero, suc, ◌≤◌, String, ◌≡◌, refl, ◌∙◌, inl, inr, Bool, true, false, Option, none, some, List,
  [], ◌∷◌, arith, ◌==◌, Bool-cases,
}
use pikship.Prelude.Table.{any, count, any-append}
use pikship.Outbox.Forwarder.{
  Event, State, is_pending, claim, ids_of, hand_over, forward, has_id, emit,
}
use pikship.Outbox.Delivery.{awaits, is_job, ids-any}

-- No event with this id waits, and there is no job for it.
pub record IsLost (id : ℕ) (s : State) : Type 0 where
  pub none_waits : any (awaits id) s.events ≡ false
  pub no_job : any (is_job id) s.jobs ≡ false

claim-other :
    (n now id : ℕ) (es : List Event)
    → any (awaits id) es ≡ false
    → (any (has_id id) (claim n now es).0 ≡ false) × (any (awaits id) (claim n now es).1 ≡ false)
unfolding claim
claim-other zero now id es h = (refl, h)
claim-other (suc n) now id [] h = (refl, refl)
claim-other (suc n) now id (e ∷ es) h = elim (Bool-cases (is_pending e)) [
  | inl hit ↦ rw hit (ground (arith, claim-other n now id es))
  | inr miss ↦ rw miss (ground (arith, claim-other (suc n) now id es))
]

handed-IsLost :
    (down : Bool) (id : ℕ) (c : List Event × List Event) (s : State)
    → any (has_id id) c.0 ≡ false
    → any (awaits id) c.1 ≡ false
    → IsLost id s
    → IsLost id (hand_over down c s).1
handed-IsLost down id ([], marked) s a b h = h
handed-IsLost true id (e ∷ es, marked) s a b h = record { none_waits = b; no_job = h.no_job }
handed-IsLost false id (e ∷ es, marked) s a b h = record {
  none_waits = b;
  no_job = any-append (is_job id) s.jobs (ids_of (e ∷ es)) ∙ rw (h.no_job, ids-any id (e ∷ es)) a;
}

forward-IsLost :
    (batch : ℕ) (refused down : Bool) (now id : ℕ) (s : State)
    → IsLost id s
    → IsLost id (forward batch refused down now s).1
unfolding forward
forward-IsLost batch true down now id s h = h
forward-IsLost batch false down now id s h =
    let (a, b) = claim-other batch now id s.events h.none_waits in
    handed-IsLost down id (claim batch now s.events) s a b h

emit-IsLost :
    (fresh now : ℕ) (kind : String) (seller : Option ℕ) (payload : Option String) (id : ℕ)
    (s : State)
    → (fresh == id) ≡ false
    → IsLost id s
    → IsLost id (emit fresh now kind seller payload s).1
unfolding emit
emit-IsLost fresh now kind seller none id s apart h = h
emit-IsLost fresh now kind seller (some json) id s apart h = record {
  none_waits = any-append (awaits id) s.events _ ∙ rw (h.none_waits, apart) refl;
  no_job = h.no_job;
}

-- Emits and polls, whether their statements fail or not.
pub data Reach (batch id : ℕ) (s : State) : State → Type 0 where
  here : Reach batch id s s
  emits :
      {t : State} (fresh now : ℕ) (kind : String) (seller : Option ℕ) (payload : Option String)
      → Reach batch id s t
      → (fresh == id) ≡ false
      → Reach batch id s (emit fresh now kind seller payload t).1
  forwards :
      {t : State} (refused down : Bool) (now : ℕ)
      → Reach batch id s t
      → Reach batch id s (forward batch refused down now t).1

Reach-IsLost : (batch id : ℕ) {s t : State} → Reach batch id s t → IsLost id s → IsLost id t
Reach-IsLost batch id here h = h
Reach-IsLost batch id (emits fresh now kind seller payload r apart) h =
    emit-IsLost fresh now kind seller payload id _ apart (Reach-IsLost batch id r h)
Reach-IsLost batch id (forwards refused down now r) h =
    forward-IsLost batch refused down now id _ (Reach-IsLost batch id r h)

no_other : (id : ℕ) (es : List Event) → count (has_id id) es ≡ 0 → any (awaits id) es ≡ false
no_other id [] h = refl
no_other id (e ∷ es) h = ground (arith, no_other id es)

-- A claimed event does not wait any longer, where its id is a key.
claimed_once :
    (n now id : ℕ) (es : List Event)
    → count (has_id id) es ≤ 1
    → any (has_id id) (claim n now es).0 ≡ true
    → any (awaits id) (claim n now es).1 ≡ false
unfolding claim
claimed_once zero now id es one h = cc
claimed_once (suc n) now id [] one h = cc
claimed_once (suc n) now id (e ∷ es) one h = elim (Bool-cases (is_pending e)) [
  | inr miss ↦ rw miss (ground (arith, claimed_once (suc n) now id es))
  | inl hit ↦ elim (Bool-cases (has_id id e)) [
    | inr other ↦ rw hit (ground (arith, claimed_once n now id es))
    | inl this ↦
        let rest : any (awaits id) es ≡ false = no_other id es (ground arith) in
        rw hit (ground (arith, claim-other n now id es rest))
  ]
]

down-IsLost :
    (id : ℕ) (c : List Event × List Event) (s : State)
    → any (has_id id) c.0 ≡ true
    → any (awaits id) c.1 ≡ false
    → any (is_job id) s.jobs ≡ false
    → IsLost id (hand_over true c s).1
down-IsLost id ([], marked) s a b h = cc
down-IsLost id (e ∷ es, marked) s a b h = record { none_waits = b; no_job = h }

-- An event that a poll claims, whose id is unique and has no job yet, never gets a job when the
-- queue does not take the jobs of that poll, whatever emits of other ids and polls follow.
pub lost_for_good :
    (batch now id : ℕ) (s t : State)
    → count (has_id id) s.events ≤ 1
    → any (is_job id) s.jobs ≡ false
    → any (has_id id) (claim batch now s.events).0 ≡ true
    → Reach batch id (forward batch false true now s).1 t
    → any (is_job id) t.jobs ≡ false
unfolding forward
lost_for_good batch now id s t one fresh claimed r =
    let after =
      down-IsLost id (claim batch now s.events) s claimed
        (claimed_once batch now id s.events one claimed) fresh in
    (Reach-IsLost batch id r after).no_job
