-- ===== src/Sessions/Service.antt =====
-- backend/internal/auth/service_impl.go and repo.go. The hash of a token and the tables app_user and
-- seller_user are parameters; the update of last_seen_at, which runs beside the answer, is a call of
-- its own.
use pikship.Prelude.{
  ℕ, ◌+◌, String, Bool, ◌&&◌, not, Option, none, some, is_some, List, [], ◌∷◌, ◌==◌, str_eq, ltb,
  if◌then◌else◌,
}
use pikship.Prelude.Table.{select, update, without}
use pikship.Prelude.Tx.{database, Result, ok, err}
use pikship.Sessions.Cache.{Principal, CacheEntry, cache_cap, get, set, drop_hash}

pub data AuthError : Type 0 where
  unauthenticated session_expired session_revoked : AuthError

pub data Answer : Type 0 where
  accepted : Principal → Answer
  refused : AuthError → Answer
  -- Another error, of the query.
  failed : Answer
  -- Not yet.
  waits : Answer

pub record Session : Type 0 where
  pub token_hash : String
  pub user_id : ℕ
  pub selected_seller_id : Option ℕ
  pub expires_at : ℕ
  pub last_seen_at : ℕ
  pub revoked_at : Option ℕ

-- The columns of app_user that are read.
pub record User : Type 0 where
  pub kind : String
  pub status : String

-- What a request has read of its session, until it goes on with it.
pub record Load : Type 0 where
  pub request : ℕ
  pub session : Session
  pub user : User

-- One process, the table that it shares, and its requests between their query and their answer.
pub record State : Type 0 where
  pub cache : List CacheEntry
  pub sessions : List Session
  pub loads : List Load

abbrev pub is_session : String → Session → Bool
is_session hash s = str_eq s.token_hash hash

abbrev pub is_open : Session → Bool
is_open s = not (is_some s.revoked_at)

abbrev pub is_request : ℕ → Load → Bool
is_request n l = l.request == n

module _ (hash_token : String → String) (users : ℕ → Option User)
    (roles : ℕ → Option ℕ → List String) where
  abbrev pub principal_of : Session → User → Principal
  principal_of r u = record {
    user_id = r.user_id;
    seller_id = r.selected_seller_id;
    roles = roles r.user_id r.selected_seller_id;
    user_kind = u.kind;
  }

  abbrev pub admit : ℕ → Session → User → State → Answer × State
  admit now r u s =
      if is_some r.revoked_at
      then (refused session_revoked, record s { cache = drop_hash r.token_hash s.cache })
      else if ltb r.expires_at now
      then (refused session_expired, s)
      else if str_eq u.status "locked"
      then (refused unauthenticated, s)
      else (
        accepted (principal_of r u),
        record s {
          cache =
              set cache_cap
                (record { hash = r.token_hash; principal = principal_of r u; inserted_at = now })
                s.cache;
        },
      )

  -- The join with app_user.
  abbrev pub join_user : ℕ → Session → Option User → State → Answer × State
  join_user n r none s = (refused unauthenticated, s)
  join_user n r (some u) s =
      (waits, record s { loads = record { request = n; session = r; user = u } ∷ s.loads })

  abbrev pub load : ℕ → Option Session → State → Answer × State
  load n none s = (refused unauthenticated, s)
  load n (some r) s = join_user n r (users r.user_id) s

  abbrev pub from_cache : Bool → ℕ → String → Option Principal → State → Answer × State
  from_cache down n hash (some p) s = (accepted p, s)
  from_cache down n hash none s =
      if down then (failed, s) else load n (select (is_session hash) s.sessions) s

  -- `Authenticate`, of the token of request n, up to the answer of its query, which fails where
  -- `down` says so. No lock is held from here to the rest.
  unfoldable pub read_session : Bool → ℕ → ℕ → String → State → Answer × State
  read_session down now n token s =
      if str_eq token ""
      then (refused unauthenticated, s)
      else from_cache down n (hash_token token) (get now (hash_token token) s.cache).0
          (record s { cache = (get now (hash_token token) s.cache).1 })

  abbrev pub admit_load : ℕ → ℕ → Option Load → State → Answer × State
  admit_load now n none s = (waits, s)
  admit_load now n (some l) s =
      admit now l.session l.user (record s { loads = without (is_request n) s.loads })

  -- The rest of `Authenticate`, with what the query of request n gave.
  unfoldable pub finish : ℕ → ℕ → State → Answer × State
  finish now n s = admit_load now n (select (is_request n) s.loads) s

  abbrev pub go_on : ℕ → ℕ → Answer × State → Answer × State
  go_on now n (waits, s) = finish now n s
  go_on now n (a, s) = (a, s)

  -- `Authenticate`, with nothing between its two parts.
  unfoldable pub authenticate : Bool → ℕ → ℕ → String → State → Answer × State
  authenticate down now n token s = go_on now n (read_session down now n token s)

  -- `touchSession`.
  unfoldable pub touch_session : ℕ → ℕ → String → State → State
  touch_session now idle hash s = record s {
    sessions =
        update (λ r. is_session hash r && is_open r)
          (λ r. record r { last_seen_at = now; expires_at = now + idle }) s.sessions;
  }

  -- `IssueCredentials`; `token` is the one that `generateToken` draws.
  unfoldable pub issue_credentials :
      Bool → ℕ → ℕ → String → ℕ → Option ℕ → State → Result (Unit {0}) × State
  issue_credentials down now idle token user seller s = if down then (err database, s) else (
    ok tt,
    record s {
      sessions =
          record {
            token_hash = hash_token token;
            user_id = user;
            selected_seller_id = seller;
            expires_at = now + idle;
            last_seen_at = now;
            revoked_at = none;
          }
          ∷ s.sessions;
    },
  )

  abbrev pub revoke_at : ℕ → Session → Session
  revoke_at now r = record r { revoked_at = some now }

  -- `Revoke`: an UPDATE that fails leaves the cache as it is.
  unfoldable pub revoke : Bool → ℕ → String → State → Result (Unit {0}) × State
  revoke down now token s = if down then (err database, s) else (
    ok tt,
    record s {
      cache = drop_hash (hash_token token) s.cache;
      sessions =
          update (λ r. is_session (hash_token token) r && is_open r) (revoke_at now) s.sessions;
    },
  )

  -- RETURNING token_hash.
  abbrev pub open_hashes : ℕ → List Session → List String
  open_hashes user [] = []
  open_hashes user (r ∷ rs) =
      if r.user_id == user && is_open r
      then r.token_hash ∷ open_hashes user rs
      else open_hashes user rs

  abbrev pub drop_all : List String → List CacheEntry → List CacheEntry
  drop_all [] es = es
  drop_all (h ∷ hs) es = drop_all hs (drop_hash h es)

  -- `RevokeAllForUser`.
  unfoldable pub revoke_all_for_user : Bool → ℕ → ℕ → State → Result (Unit {0}) × State
  revoke_all_for_user down now user s = if down then (err database, s) else (
    ok tt,
    record s {
      cache = drop_all (open_hashes user s.sessions) s.cache;
      sessions = update (λ r. r.user_id == user && is_open r) (revoke_at now) s.sessions;
    },
  )
