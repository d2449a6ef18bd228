-- ===== src/Idempotency/Middleware.antt =====
-- backend/internal/idempotency/idempotency.go. The handler behind the middleware, the state that it
-- works on and the hash of a body are parameters.
use pikship.Prelude.{
  ℕ, String, Bool, true, false, ◌&&◌, ◌||◌, not, Option, none, some, List, ◌∷◌, ◌==◌, leb, ltb,
  str_eq, if◌then◌else◌,
}
use pikship.Prelude.Table.{select, any}

-- The connection of the pool is under no seller's scope: the row policy of idempotency_key hides all
-- rows from the role `app` and refuses its inserts; `bypass` is a role without row policies.
pub data Role : Type 0 where
  app bypass : Role

pub data Method : Type 0 where
  get post put patch delete : Method

-- `seller_id` is the principal's, `none` where there is no principal; 0 is the zero id.
pub record Request : Type 0 where
  pub method : Method
  pub key : String
  pub seller_id : Option ℕ
  pub body : String

pub record Response : Type 0 where
  pub status : ℕ
  pub content_type : String
  pub body : String

-- What the client gets: the header Idempotency-Replayed is `replayed`.
pub record Reply : Type 0 where
  pub response : Response
  pub replayed : Bool

-- idempotency_key (backend/migrations/0006_idempotency.up.sql).
pub record KeyRow : Type 0 where
  pub seller_id : ℕ
  pub key : String
  pub cached : Response
  pub body_hash : String

abbrev pub is_key : ℕ → String → KeyRow → Bool
is_key seller key r = r.seller_id == seller && str_eq r.key key

abbrev pub cached_of : Option KeyRow → Option Response
cached_of none = none
cached_of (some r) = some r.cached

-- `repo.get`.
unfoldable pub get_cached : Role → ℕ → String → List KeyRow → Option Response
get_cached app seller key rows = none
get_cached bypass seller key rows = cached_of (select (is_key seller key) rows)

-- `repo.set`: ON CONFLICT DO NOTHING.
unfoldable pub set_cached : Role → KeyRow → List KeyRow → List KeyRow
set_cached app row rows = rows
set_cached bypass row rows = if any (is_key row.seller_id row.key) rows then rows else row ∷ rows

abbrev pub is_write : Method → Bool
is_write Method.post = true
is_write Method.patch = true
is_write _ = false

abbrev pub is_success : ℕ → Bool
is_success status = leb 200 status && ltb status 300

abbrev pub failed_check : Response
failed_check = record {
  status = 500;
  content_type = "text/plain; charset=utf-8";
  body = "idempotency check failed";
}

module _ {World : Type 0} (handler : Request → World → Response × World)
    (hash : String → String) where
  pub record State : Type 0 where
    pub keys : List KeyRow
    pub world : World

  abbrev pub pass_on : Request → State → Reply × State
  pass_on req s = (
    record { response = (handler req s.world).0; replayed = false },
    record s { world = (handler req s.world).1 },
  )

  -- The store runs beside the answer: `kept` says that it does not fail.
  abbrev pub remember : Role → Bool → ℕ → Request → Response → List KeyRow → List KeyRow
  remember role kept seller req r rows =
      if kept && is_success r.status
      then set_cached role
          (record { seller_id = seller; key = req.key; cached = r; body_hash = hash r.body }) rows
      else rows

  abbrev pub answer : Role → Bool → ℕ → Request → Option Response → State → Reply × State
  answer role kept seller req (some r) s = (record { response = r; replayed = true }, s)
  answer role kept seller req none s =
      let (r, w) = handler req s.world in
      (
        record { response = r; replayed = false },
        record { keys = remember role kept seller req r s.keys; world = w },
      )

  -- `down` says that the look-up fails.
  abbrev pub look_up : Role → Bool → Bool → ℕ → Request → State → Reply × State
  look_up role down kept seller req s =
      if down
      then (record { response = failed_check; replayed = false }, s)
      else answer role kept seller req (get_cached role seller req.key s.keys) s

  abbrev pub for_principal : Role → Bool → Bool → Option ℕ → Request → State → Reply × State
  for_principal role down kept none req s = pass_on req s
  for_principal role down kept (some seller) req s =
      if seller == 0 then pass_on req s else look_up role down kept seller req s

  -- `Middleware`.
  unfoldable pub serve : Role → Bool → Bool → Request → State → Reply × State
  serve role down kept req s =
      if str_eq req.key "" || not (is_write req.method)
      then pass_on req s
      else for_principal role down kept req.seller_id req s
