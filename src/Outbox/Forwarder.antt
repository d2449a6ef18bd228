-- ===== src/Outbox/Forwarder.antt =====
-- backend/internal/outbox: the emitter, the forwarder with the statements of repo.go, the registry
-- and the worker. The queue of jobs is a list of the ids that were inserted into it.
use pikship.Prelude.{
  ℕ, zero, suc, String, Bool, not, Option, none, some, is_some, List, [], ◌∷◌, ◌++◌, ◌==◌, str_eq,
  if◌then◌else◌,
}
use pikship.Prelude.Table.{select}
use pikship.Prelude.Tx.{plain, database, Result, ok, err}

-- outbox_event (backend/migrations/0005_outbox.up.sql), by ascending created_at.
pub record Event : Type 0 where
  pub id : ℕ
  pub seller_id : Option ℕ
  pub kind : String
  pub version : ℕ
  pub payload : String
  pub occurred_at : ℕ
  pub enqueued_at : Option ℕ

pub record State : Type 0 where
  pub events : List Event
  pub jobs : List ℕ

-- `Emit`: `payload` is `none` where it cannot be marshalled.
abbrev pub emit_payload :
    ℕ → ℕ → String → Option ℕ → Option String → State → Result (Unit {0}) × State
emit_payload fresh now kind seller none s = (err plain, s)
emit_payload fresh now kind seller (some json) s = (
  ok tt,
  record s {
    events =
        s.events
        ++ (record {
          id = fresh;
          seller_id = seller;
          kind = kind;
          version = 1;
          payload = json;
          occurred_at = now;
          enqueued_at = none;
        }
            ∷ []);
  },
)

unfoldable pub emit : ℕ → ℕ → String → Option ℕ → Option String → State → Result (Unit {0}) × State
emit fresh now kind seller payload s = emit_payload fresh now kind seller payload s

abbrev pub is_pending : Event → Bool
is_pending e = not (is_some e.enqueued_at)

abbrev pub enqueue : ℕ → Event → Event
enqueue now e = record e { enqueued_at = some now }

abbrev pub cons_pair : Event → Event → List Event × List Event → List Event × List Event
cons_pair claimed marked (xs, ys) = (claimed ∷ xs, marked ∷ ys)

abbrev pub skip : Event → List Event × List Event → List Event × List Event
skip e (xs, ys) = (xs, e ∷ ys)

-- `listAndMarkPending`: the first `n` pending rows, and the table with these rows marked.
unfoldable pub claim : ℕ → ℕ → List Event → List Event × List Event
claim zero now es = ([], es)
claim (suc n) now [] = ([], [])
claim (suc n) now (e ∷ es) =
    if is_pending e
    then cons_pair e (enqueue now e) (claim n now es)
    else skip e (claim (suc n) now es)

abbrev pub ids_of : List Event → List ℕ
ids_of [] = []
ids_of (e ∷ es) = e.id ∷ ids_of es

-- `InsertMany` puts in all jobs or, where it fails, none.
abbrev pub hand_over : Bool → List Event × List Event → State → Result (Unit {0}) × State
hand_over down ([], marked) s = (ok tt, s)
hand_over down (e ∷ es, marked) s =
    if down
    then (err plain, record s { events = marked })
    else (ok tt, record { events = marked; jobs = s.jobs ++ ids_of (e ∷ es) })

-- `forward`: `refused` says that the claim fails, `down` that the queue does not take the jobs.
unfoldable pub forward : ℕ → Bool → Bool → ℕ → State → Result (Unit {0}) × State
forward batch refused down now s =
    if refused then (err database, s) else hand_over down (claim batch now s.events) s

abbrev pub has_id : ℕ → Event → Bool
has_id id e = e.id == id

abbrev pub Handlers : Type 0
Handlers = String → Option (Event → Result (Unit {0}))

-- `Register` panics on a kind that has a handler.
abbrev pub register : String → (Event → Result (Unit {0})) → Handlers → Option Handlers
register kind h handlers =
    if is_some (handlers kind)
    then none
    else some (λ k. if str_eq k kind then some h else handlers k)

-- `Dispatch` and `Work`.
abbrev pub dispatch : Option (Event → Result (Unit {0})) → Event → Result (Unit {0})
dispatch none e = err plain
dispatch (some h) e = h e

abbrev pub work_found : Handlers → Option Event → Result (Unit {0})
work_found handlers none = err database
work_found handlers (some e) = dispatch (handlers e.kind) e

unfoldable pub work : Handlers → ℕ → State → Result (Unit {0})
work handlers id s = work_found handlers (select (has_id id) s.events)
