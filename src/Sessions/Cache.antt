-- ===== src/Sessions/Cache.antt =====
-- backend/internal/auth/cache.go: the entries by last use, the oldest first. The Go code keeps the
-- same entries in a map and in a list; here one list stands for both.
use pikship.Prelude.{
  ℕ, ◌+◌, String, Bool, Option, none, some, List, [], ◌∷◌, ◌++◌, str_eq, leb, ltb, if◌then◌else◌,
}
use pikship.Prelude.Table.{select, without}

-- Principal of service.go.
pub record Principal : Type 0 where
  pub user_id : ℕ
  pub seller_id : Option ℕ
  pub roles : List String
  pub user_kind : String

pub record CacheEntry : Type 0 where
  pub hash : String
  pub principal : Principal
  pub inserted_at : ℕ

-- 30 seconds, in nanoseconds.
abbrev pub cache_ttl : ℕ
cache_ttl = 30_000_000_000

abbrev pub cache_cap : ℕ
cache_cap = 10_000

abbrev pub has_hash : String → CacheEntry → Bool
has_hash hash e = str_eq e.hash hash

abbrev pub size : List CacheEntry → ℕ
size [] = 0
size (e ∷ es) = 1 + size es

-- `delete`.
unfoldable pub drop_hash : String → List CacheEntry → List CacheEntry
drop_hash hash es = without (has_hash hash) es

abbrev pub read_entry :
    ℕ → String → Option CacheEntry → List CacheEntry → Option Principal × List CacheEntry
read_entry now hash none es = (none, es)
read_entry now hash (some e) es =
    if ltb (e.inserted_at + cache_ttl) now
    then (none, drop_hash hash es)
    else (some e.principal, drop_hash hash es ++ (e ∷ []))

-- `get`: an entry that is too old is dropped, another becomes the last used.
unfoldable pub get : ℕ → String → List CacheEntry → Option Principal × List CacheEntry
get now hash es = read_entry now hash (select (has_hash hash) es) es

abbrev pub drop_front : List CacheEntry → List CacheEntry
drop_front [] = []
drop_front (e ∷ es) = es

abbrev pub set_entry : ℕ → CacheEntry → Option CacheEntry → List CacheEntry → List CacheEntry
set_entry cap new (some e) es = drop_hash new.hash es ++ (new ∷ [])
set_entry cap new none es =
    if leb cap (size es) then drop_front es ++ (new ∷ []) else es ++ (new ∷ [])

-- `set`: a new hash in a full cache takes the place of the oldest entry.
unfoldable pub set : ℕ → CacheEntry → List CacheEntry → List CacheEntry
set cap new es = set_entry cap new (select (has_hash new.hash) es) es
