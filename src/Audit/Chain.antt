-- ===== src/Audit/Chain.antt =====
-- backend/internal/audit/types.go and chain.go: events, the hash of an event and VerifyChain. SHA-256
-- with its encoding, and the printing of ids, times and JSON, are parameters.
use Prim.Native.String.{◌++◌}
use pikship.Prelude.{ℕ, ◌+◌, String, Option, none, some, List, [], ◌∷◌, ◌==◌, str_eq, if◌then◌else◌}
use pikship.Prelude.Tx.{plain, Result, ok, err}

-- What the hash and the columns read of an actor.
pub record Actor : Type 0 where
  pub kind : String
  pub ref : String
  pub ip_address : String
  pub user_agent : String

pub record Target : Type 0 where
  pub kind : String
  pub ref : String

-- A payload is its JSON text; `none` is a nil map. An id or a time of 0 is the zero value.
pub record Event : Type 0 where
  pub id : ℕ
  pub seller_id : Option ℕ
  pub actor : Actor
  pub action : String
  pub target : Target
  pub payload : Option String
  pub occurred_at : ℕ

-- How the parts of an event are written for the hash.
pub record Printing : Type 0 where
  pub id_text : ℕ → String
  pub time_text : ℕ → String
  pub canonical : String → String
  pub actor_json : String → String → String

-- A seller's id is a uuid as an event's is.
abbrev pub seller_text : (ℕ → String) → Option ℕ → String
seller_text print none = ""
seller_text print (some s) = print s

-- `canonicalJSON`: a nil map is written as null.
abbrev pub canonical_json : (String → String) → Option String → String
canonical_json canonical none = "null"
canonical_json canonical (some json) = canonical json

abbrev pub size : {A : Type 0} → List A → ℕ
size [] = 0
size (x ∷ xs) = 1 + size xs

module _ (p : Printing) where
  -- What is hashed after the payload, and before it.
  abbrev pub suffix : Event → String
  suffix e = p.actor_json e.actor.kind e.actor.ref

  abbrev pub prefix : Event → String → String
  prefix e prev =
      prev
      ++ (p.id_text e.id
          ++ (seller_text p.id_text e.seller_id
              ++ (e.action ++ (e.target.kind ++ (e.target.ref ++ p.time_text e.occurred_at)))))

  unfoldable pub hash_input : Event → String → String
  hash_input e prev = prefix e prev ++ (canonical_json p.canonical e.payload ++ suffix e)

  module _ (hash : String → String) where
    unfoldable pub compute_event_hash : Event → String → String
    compute_event_hash e prev = hash (hash_input e prev)

    -- The loop of `VerifyChain`, which goes on from the stored hash.
    unfoldable pub verify_from : String → List Event → List String → Result (Unit {0})
    verify_from prev (e ∷ es) (h ∷ hs) =
        if str_eq (compute_event_hash e prev) h then verify_from h es hs else err plain
    verify_from prev [] [] = ok tt
    verify_from prev _ _ = err plain

    -- `VerifyChain`.
    unfoldable pub verify_chain : List Event → List String → Result (Unit {0})
    verify_chain events hashes =
        if size events == size hashes then verify_from "" events hashes else err plain
