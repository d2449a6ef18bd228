-- ===== src/Sessions/Shut.antt =====
-- What the parts of Authenticate (backend/internal/auth/service_impl.go) and the cache keep of a session
-- that is revoked.
use pikship.Prelude.{
  ℕ, ◌+◌, String, ◌≡◌, refl, ◌∙◌, inl, inr, Bool, true, false, ◌&&◌, Option, none, some, is_some,
  List, [], ◌∷◌, arith, str_eq, ltb, leb, Bool-cases, Option-cases,
}
use pikship.Prelude.Table.{select, any, without, any-append, any-select, any-without}
use pikship.Sessions.Cache.{
  Principal, CacheEntry, cache_cap, cache_ttl, has_hash, size, get, set, drop_hash, drop_front,
}
use pikship.Sessions.Service.{
  Session, User, Load, State, is_session, is_open, is_request, admit, load, from_cache,
  read_session, finish, drop_all,
}

abbrev pub open_session : String → Session → Bool
open_session hash r = is_session hash r && is_open r

-- A request under way that has read an open session.
abbrev pub open_load : String → Load → Bool
open_load hash l = open_session hash l.session

-- The hash is not cached, its sessions are revoked, and no request goes on with an open one.
pub record IsShut (hash : String) (s : State) : Type 0 where
  pub uncached : any (has_hash hash) s.cache ≡ false
  pub none_open : any (open_session hash) s.sessions ≡ false
  pub none_loaded : any (open_load hash) s.loads ≡ false

missing :
    (h k : String) (e : CacheEntry) (es : List CacheEntry)
    → any (has_hash h) es ≡ false
    → select (has_hash k) es ≡ some e
    → has_hash h e ≡ false
missing h k e es clean found = any-select (has_hash h) (has_hash k) e es clean found

pub get-uncached :
    (now : ℕ) (h k : String) (es : List CacheEntry)
    → any (has_hash h) es ≡ false
    → any (has_hash h) (get now k es).1 ≡ false
unfolding get drop_hash
get-uncached now h k es clean = elim (Option-cases (select (has_hash k) es)) [
  | inl gone ↦ rw gone clean
  | inr (e, found) ↦
      let left = any-without (has_hash h) (has_hash k) es clean in
      elim (Bool-cases (ltb (e.inserted_at + cache_ttl) now)) [
        | inl old ↦ rw (found, old) left
        | inr young ↦
            rw (found, young)
              (any-append (has_hash h) (without (has_hash k) es) (e ∷ [])
                ∙ ground (arith, missing h k e es clean found))
      ]
]

drop_front-uncached :
    (h : String) (es : List CacheEntry)
    → any (has_hash h) es ≡ false
    → any (has_hash h) (drop_front es) ≡ false
drop_front-uncached h [] clean = refl
drop_front-uncached h (e ∷ es) clean = ground arith

set-uncached :
    (cap : ℕ) (h : String) (new : CacheEntry) (es : List CacheEntry)
    → has_hash h new ≡ false
    → any (has_hash h) es ≡ false
    → any (has_hash h) (set cap new es) ≡ false
unfolding set drop_hash
set-uncached cap h new es apart clean = elim (Option-cases (select (has_hash new.hash) es)) [
  | inr (e, found) ↦ rw found (
      any-append (has_hash h) (without (has_hash new.hash) es) (new ∷ [])
      ∙ ground (arith, any-without (has_hash h) (has_hash new.hash) es clean))
  | inl gone ↦ elim (Bool-cases (leb cap (size es))) [
    | inl full ↦
        rw (gone, full)
          (any-append (has_hash h) (drop_front es) (new ∷ [])
            ∙ ground (arith, drop_front-uncached h es clean))
    | inr room ↦ rw (gone, room) (any-append (has_hash h) es (new ∷ []) ∙ ground arith)
  ]
]

module _ (hash_token : String → String) (users : ℕ → Option User)
    (roles : ℕ → Option ℕ → List String) where
  admit-IsShut :
      (now : ℕ) (h : String) (r : Session) (u : User) (s : State)
      → open_session h r ≡ false
      → IsShut h s
      → IsShut h (admit hash_token users roles now r u s).1
  unfolding drop_hash
  admit-IsShut now h r u s shut h' = elim (Bool-cases (is_some r.revoked_at)) [
    | inl gone ↦ rw gone (record {
      uncached = any-without (has_hash h) (has_hash r.token_hash) s.cache h'.uncached;
      none_open = h'.none_open;
      none_loaded = h'.none_loaded;
    })
    | inr live ↦ elim (Bool-cases (ltb r.expires_at now)) [
      | inl old ↦ rw (live, old) h'
      | inr young ↦ elim (Bool-cases (str_eq u.status "locked")) [
        | inl locked ↦ rw (live, young, locked) h'
        | inr free ↦
            rw (live, young, free)
              (record {
                uncached = set-uncached cache_cap h _ s.cache (ground arith) h'.uncached;
                none_open = h'.none_open;
                none_loaded = h'.none_loaded;
              })
      ]
    ]
  ]

  load-IsShut :
      (n : ℕ) (h k : String) (s : State)
      → IsShut h s
      → IsShut h (load hash_token users roles n (select (is_session k) s.sessions) s).1
  load-IsShut n h k s shut = elim (Option-cases (select (is_session k) s.sessions)) [
    | inl gone ↦ rw gone shut
    | inr (r, found) ↦ rw found (elim (Option-cases (users r.user_id)) [
      | inl nobody ↦ rw nobody shut
      | inr (u, known) ↦ rw known (record {
        uncached = shut.uncached;
        none_open = shut.none_open;
        none_loaded =
            rw (any-select (open_session h) (is_session k) r s.sessions shut.none_open found)
              shut.none_loaded;
      })
    ])
  ]

  from_cache-IsShut :
      (down : Bool) (n : ℕ) (h k : String) (o : Option Principal) (s : State)
      → IsShut h s
      → IsShut h (from_cache hash_token users roles down n k o s).1
  from_cache-IsShut true n h k none s shut = shut
  from_cache-IsShut false n h k none s shut = load-IsShut n h k s shut
  from_cache-IsShut down n h k (some p) s shut = shut

  pub read_session-IsShut :
      (down : Bool) (now n : ℕ) (h token : String) (s : State)
      → IsShut h s
      → IsShut h (read_session hash_token users roles down now n token s).1
  unfolding read_session
  read_session-IsShut down now n h token s shut = elim (Bool-cases (str_eq token "")) [
    | inl empty ↦ rw empty shut
    | inr named ↦ rw named (
        from_cache-IsShut down n h (hash_token token) (get now (hash_token token) s.cache).0
          (record s { cache = (get now (hash_token token) s.cache).1 })
          (record {
            uncached = get-uncached now h (hash_token token) s.cache shut.uncached;
            none_open = shut.none_open;
            none_loaded = shut.none_loaded;
          }))
  ]

  pub finish-IsShut :
      (now n : ℕ) (h : String) (s : State)
      → IsShut h s
      → IsShut h (finish hash_token users roles now n s).1
  unfolding finish
  finish-IsShut now n h s shut = elim (Option-cases (select (is_request n) s.loads)) [
    | inl gone ↦ rw gone shut
    | inr (l, found) ↦ rw found (
        admit-IsShut now h l.session l.user (record s { loads = without (is_request n) s.loads })
          (any-select (open_load h) (is_request n) l s.loads shut.none_loaded found)
          (record {
            uncached = shut.uncached;
            none_open = shut.none_open;
            none_loaded = any-without (open_load h) (is_request n) s.loads shut.none_loaded;
          }))
  ]

  pub drop_all-uncached :
      (h : String) (hs : List String) (es : List CacheEntry)
      → any (has_hash h) es ≡ false
      → any (has_hash h) (drop_all hash_token users roles hs es) ≡ false
  unfolding drop_hash
  drop_all-uncached h [] es clean = clean
  drop_all-uncached h (k ∷ hs) es clean =
      drop_all-uncached h hs (without (has_hash k) es)
        (any-without (has_hash h) (has_hash k) es clean)
