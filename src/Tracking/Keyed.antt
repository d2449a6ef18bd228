-- ===== src/Tracking/Keyed.antt =====
-- The rows of tracking_event that backend/internal/tracking/tracking.go writes.
use pikship.Prelude.{ℕ, ◌≤◌, ◌≡◌, String, List, [], ◌∷◌}
use pikship.Prelude.Table.{count}
use pikship.Tracking.Status.{normalise}
use pikship.Tracking.Service.{EventRow, Db, has_key, dedupe_hash}

module _ (hash : String → String) (printed : ℕ → String) where
  -- The row was made of its event.
  abbrev pub IsRowOf : EventRow → Type 0
  IsRowOf r =
      (r.dedupe_key ≡ dedupe_hash hash printed r.event)
      × (r.canonical ≡ normalise r.event.status_code r.event.status)

  abbrev pub AllRows : List EventRow → Type 0
  AllRows [] = Unit {0}
  AllRows (r ∷ rs) = IsRowOf r × AllRows rs

  -- No two rows have the same key, and each row is made of its event.
  pub record IsKeyed (db : Db) : Type 0 where
    pub once : (key : String) → count (has_key key) db.events ≤ 1
    pub rows : AllRows db.events
