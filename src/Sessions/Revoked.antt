-- ===== src/Sessions/Revoked.antt =====
-- A session that is revoked (backend/internal/auth/service_impl.go) stays refused in the process that
-- revoked it.
use pikship.Prelude.{
  ℕ, String, ◌≡◌, refl, inl, inr, Bool, true, false, ◌&&◌, Option, none, some, List, [], ◌∷◌, arith,
  str_eq, Bool-cases, Option-cases,
}
use pikship.Prelude.Table.{
  select, update, any, select→any, any-select, any-without, any-without_self, any-update_fewer,
}
use pikship.Sessions.Cache.{CacheEntry, has_hash, get, drop_hash}
use pikship.Prelude.Tx.{ok}
use pikship.Sessions.Service.{
  Answer, accepted, Session, User, Load, State, is_session, is_open, is_request, load, read_session,
  finish, touch_session, issue_credentials, revoke_at, revoke, open_hashes, revoke_all_for_user,
}
use pikship.Sessions.Shut.{
  open_session, open_load, IsShut, read_session-IsShut, finish-IsShut, drop_all-uncached,
}

abbrev pub is_accepted : Answer → Bool
is_accepted (accepted _) = true
is_accepted _ = false

module _ (hash_token : String → String) (users : ℕ → Option User)
    (roles : ℕ → Option ℕ → List String) where
  -- The parts of requests in this process, in any order, and calls of `touchSession` beside them. A
  -- token is drawn that has another hash.
  pub data Reach (h : String) (s : State) : State → Type 0 where
    here : Reach h s s
    reads :
        {t : State} (down : Bool) (now n : ℕ) (token : String)
        → Reach h s t
        → Reach h s (read_session hash_token users roles down now n token t).1
    finishes :
        {t : State} (now n : ℕ) → Reach h s t → Reach h s (finish hash_token users roles now n t).1
    touches :
        {t : State} (now idle : ℕ) (k : String)
        → Reach h s t
        → Reach h s (touch_session hash_token users roles now idle k t)
    issues :
        {t : State} (down : Bool) (now idle : ℕ) (token : String) (user : ℕ) (seller : Option ℕ)
        → Reach h s t
        → str_eq (hash_token token) h ≡ false
        → Reach h s (issue_credentials hash_token users roles down now idle token user seller t).1
    revokes :
        {t : State} (down : Bool) (now : ℕ) (token : String)
        → Reach h s t
        → Reach h s (revoke hash_token users roles down now token t).1
    revokes_all :
        {t : State} (down : Bool) (now user : ℕ)
        → Reach h s t
        → Reach h s (revoke_all_for_user hash_token users roles down now user t).1

  Reach-IsShut : (h : String) {s t : State} → Reach h s t → IsShut h s → IsShut h t
  unfolding touch_session issue_credentials revoke revoke_all_for_user drop_hash
  Reach-IsShut h here shut = shut
  Reach-IsShut h (reads down now n token r) shut =
      read_session-IsShut hash_token users roles down now n h token _ (Reach-IsShut h r shut)
  Reach-IsShut h (finishes now n r) shut =
      finish-IsShut hash_token users roles now n h _ (Reach-IsShut h r shut)
  Reach-IsShut h (touches {t = t} now idle k r) shut =
      let before = Reach-IsShut h r shut in
      record {
        uncached = before.uncached;
        none_open =
            any-update_fewer (open_session h) _ _ (λ x hit. hit) t.sessions before.none_open;
        none_loaded = before.none_loaded;
      }
  Reach-IsShut h (issues true now idle token user seller r apart) shut = Reach-IsShut h r shut
  Reach-IsShut h (issues {t = t} false now idle token user seller r apart) shut =
      let before = Reach-IsShut h r shut in
      record {
        uncached = before.uncached;
        none_open = rw apart before.none_open;
        none_loaded = before.none_loaded;
      }
  Reach-IsShut h (revokes true now token r) shut = Reach-IsShut h r shut
  Reach-IsShut h (revokes {t = t} false now token r) shut =
      let before = Reach-IsShut h r shut in
      record {
        uncached = any-without (has_hash h) (has_hash (hash_token token)) t.cache before.uncached;
        none_open =
            any-update_fewer (open_session h) _ (revoke_at hash_token users roles now)
              (λ x hit. ground arith) t.sessions before.none_open;
        none_loaded = before.none_loaded;
      }
  Reach-IsShut h (revokes_all true now user r) shut = Reach-IsShut h r shut
  Reach-IsShut h (revokes_all {t = t} false now user r) shut =
      let before = Reach-IsShut h r shut in
      record {
        uncached =
            drop_all-uncached hash_token users roles h
              (open_hashes hash_token users roles user t.sessions) t.cache before.uncached;
        none_open =
            any-update_fewer (open_session h) _ (revoke_at hash_token users roles now)
              (λ x hit. ground arith) t.sessions before.none_open;
        none_loaded = before.none_loaded;
      }

  closed :
      (now : ℕ) (h : String) (xs : List Session)
      → any
          (open_session h)
          (update (λ r. is_session h r && is_open r) (revoke_at hash_token users roles now) xs)
        ≡ false
  closed now h [] = refl
  closed now h (x ∷ xs) = ground (arith, closed now h xs)

  revoke-IsShut :
      (down : Bool) (now : ℕ) (token : String) (s : State)
      → any (open_load (hash_token token)) s.loads ≡ false
      → (revoke hash_token users roles down now token s).0 ≡ ok tt
      → IsShut (hash_token token) (revoke hash_token users roles down now token s).1
  unfolding revoke drop_hash
  revoke-IsShut true now token s idle done = cc
  revoke-IsShut false now token s idle done = record {
    uncached = any-without_self (has_hash (hash_token token)) s.cache;
    none_open = closed now (hash_token token) s.sessions;
    none_loaded = idle;
  }

  not_cached :
      (now : ℕ) (h : String) (es : List CacheEntry)
      → any (has_hash h) es ≡ false
      → get now h es ≡ (none, es)
  unfolding get
  not_cached now h es clean = elim (Option-cases (select (has_hash h) es)) [
    | inl gone ↦ rw gone refl
    | inr (e, found) ↦
        absurd (ground (arith, select→any (has_hash h) (has_hash h) (λ x hit. hit) e es found))
  ]

  load-refused :
      (n : ℕ) (h : String) (s : State)
      → is_accepted (load hash_token users roles n (select (is_session h) s.sessions) s).0 ≡ false
  load-refused n h s = elim (Option-cases (select (is_session h) s.sessions)) [
    | inl gone ↦ rw gone refl
    | inr (r, found) ↦ rw found (elim (Option-cases (users r.user_id)) [
      | inl nobody ↦ rw nobody refl
      | inr (u, known) ↦ rw known refl
    ])
  ]

  read-refused :
      (down : Bool) (now n : ℕ) (token : String) (s : State)
      → IsShut (hash_token token) s
      → is_accepted (read_session hash_token users roles down now n token s).0 ≡ false
  unfolding read_session
  read-refused down now n token s shut =
      let out = not_cached now (hash_token token) s.cache shut.uncached in
      elim (Bool-cases (str_eq token "")) [
        | inl empty ↦ rw empty refl
        | inr named ↦
            rw (named, out)
              (elim (Bool-cases down) [
                | inl h ↦ rw h refl
                | inr h ↦ rw h (load-refused n (hash_token token) s)
              ])
      ]

  -- Whether the rest of request n accepts a session with this hash.
  abbrev pub accepts : String → ℕ → ℕ → Option Load → State → Bool
  accepts hash now n none s = false
  accepts hash now n (some l) s =
      is_session hash l.session && is_accepted (finish hash_token users roles now n s).0

  finish-refused :
      (now n : ℕ) (h : String) (s : State)
      → IsShut h s
      → accepts h now n (select (is_request n) s.loads) s ≡ false
  unfolding finish
  finish-refused now n h s shut = elim (Option-cases (select (is_request n) s.loads)) [
    | inl gone ↦ rw gone refl
    | inr (l, found) ↦
        let done = any-select (open_load h) (is_request n) l s.loads shut.none_loaded found in
        rw (found, found)
          (elim (Bool-cases (is_session h l.session)) [
            | inr other ↦ rw other refl
            | inl mine ↦ rw mine (ground (arith, mine, done))
          ])
  ]

  -- After a Revoke of a token that succeeds, while no request that has read an open session of
  -- that token is between its query and its answer, no request in that process is accepted with
  -- the token, whether it answers from the cache or goes on with what its query gave, whatever
  -- parts of requests, calls of IssueCredentials (for a token of another hash), Revoke and
  -- RevokeAllForUser and updates of sessions in use follow, in any order and with statements that
  -- fail or not.
  pub revoked_stays_refused :
      (down again : Bool) (now later n : ℕ) (token : String) (s t : State)
      → any (open_load (hash_token token)) s.loads ≡ false
      → (revoke hash_token users roles down now token s).0 ≡ ok tt
      → Reach (hash_token token) (revoke hash_token users roles down now token s).1 t
      → (is_accepted (read_session hash_token users roles again later n token t).0 ≡ false)
        × (accepts (hash_token token) later n (select (is_request n) t.loads) t ≡ false)
  revoked_stays_refused down again now later n token s t idle done r =
      let shut = Reach-IsShut (hash_token token) r (revoke-IsShut down now token s idle done) in
      (read-refused again later n token t shut, finish-refused later n (hash_token token) t shut)
