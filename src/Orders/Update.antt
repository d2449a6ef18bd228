-- ===== src/Orders/Update.antt =====
-- `Update` of backend/internal/orders/service_impl.go: the statement that it builds, with its
-- numbered placeholders, and the arguments that it sends. Whether Postgres takes a statement with
-- placeholders up to a number and so many arguments is the parameter `accepts`.
use pikship.Prelude.{
  ℕ, ◌+◌, ◌-◌, ◌≡◌, ◌⊎◌, inl, inr, refl, String, Bool, true, false, not, ◌&&◌, Option, none, some,
  List, [], ◌∷◌, ◌++◌, arith, ◌==◌, ltb, if◌then◌else◌, Option-cases, Bool-cases,
}
use pikship.Prelude.Table.{update}
use pikship.Prelude.Tx.{
  invalid_argument, database, Result, ok, err, is_ok, Tx, ◌>>=◌, ◌>>◌, fail_if, with_seller_tx,
}
use pikship.Orders.State.{draft, ready, state_eq}
use pikship.Orders.Rows.{Order, Db, UpdatePatch}
use pikship.Orders.Repo.{get_order}

pub data Argument : Type 0 where
  text : String → Argument
  texts : List String → Argument
  key : ℕ → Argument

pub data Column : Type 0 where
  buyer_phone_col notes_col tags_col : Column

-- UPDATE order_record SET c1 = $p1, … WHERE id = $id_at AND seller_id = $(id_at + 1).
pub record Statement : Type 0 where
  pub sets : List (Column × ℕ)
  pub id_at : ℕ
  pub args : List Argument

-- `argN` with the assignments and the arguments so far.
pub record Building : Type 0 where
  pub arg_n : ℕ
  pub assigned : List (Column × ℕ)
  pub sent : List Argument

abbrev pub add_set : Column → Option Argument → Building → Building
add_set c none b = b
add_set c (some a) b = record {
  arg_n = b.arg_n + 1;
  assigned = b.assigned ++ ((c, b.arg_n + 1) ∷ []);
  sent = b.sent ++ (a ∷ []);
}

abbrev as_text : Option String → Option Argument
as_text none = none
as_text (some x) = some (text x)

abbrev as_texts : Option (List String) → Option Argument
as_texts none = none
as_texts (some xs) = some (texts xs)

abbrev pub building : UpdatePatch → Building
building patch = add_set tags_col (as_texts patch.tags) (
    add_set notes_col (as_text patch.notes) (
      add_set buyer_phone_col (as_text patch.buyer_phone)
        (record { arg_n = 1; assigned = []; sent = [] })))

abbrev pub statement : ℕ → ℕ → UpdatePatch → Statement
statement seller id patch = record {
  sets = (building patch).assigned;
  id_at = (building patch).arg_n + 1;
  args = (building patch).sent ++ (key id ∷ key seller ∷ []);
}

abbrev pub count_args : List Argument → ℕ
count_args [] = 0
count_args (_ ∷ rest) = count_args rest + 1

-- The argument that a placeholder stands for, the first having the number 1.
abbrev arg_at : ℕ → List Argument → Option Argument
arg_at n [] = none
arg_at n (a ∷ rest) = if n == 1 then some a else arg_at (n - 1) rest

abbrev set_column : Column → Option Argument → Order → Order
set_column buyer_phone_col (some (text x)) o = record o {
  details = record o.details { buyer_phone = x };
}
set_column notes_col (some (text x)) o = record o { details = record o.details { notes = x } }
set_column tags_col (some (texts xs)) o = record o { details = record o.details { tags = xs } }
set_column _ _ o = o

abbrev set_columns : List (Column × ℕ) → List Argument → Order → Order
set_columns [] args o = o
set_columns ((c, n) ∷ cs) args o = set_columns cs args (set_column c (arg_at n args) o)

abbrev is_key : Option Argument → ℕ → Bool
is_key (some (key k)) n = k == n
is_key _ _ = false

abbrev run_statement : ℕ → Statement → Db → Db
run_statement now st db = record db {
  orders =
      update
        (λ o.
          is_key (arg_at st.id_at st.args) o.id
          && is_key (arg_at (st.id_at + 1) st.args) o.seller_id)
        (λ o. record (set_columns st.sets st.args o) { updated_at = now }) db.orders;
}

module _ (accepts : ℕ → ℕ → Bool) where
  unfoldable pub exec : ℕ → Statement → Tx Db (Unit {0})
  exec now st db =
      if accepts (st.id_at + 1) (count_args st.args)
      then ok (tt, run_statement now st db)
      else err database

  -- The statement goes out when it has more arguments than the two keys.
  unfoldable pub exec_if : ℕ → Statement → Tx Db (Unit {0})
  exec_if now st db = if ltb 2 (count_args st.args) then exec now st db else ok (tt, db)

  abbrev pub update_body : ℕ → ℕ → ℕ → UpdatePatch → Tx Db Order
  update_body now seller id patch = do
    o ← get_order seller id
    fail_if (not (state_eq o.state draft) && not (state_eq o.state ready)) invalid_argument
    exec_if now (statement seller id patch)
    get_order seller id

  -- `Update`.
  unfoldable pub update_order : ℕ → ℕ → ℕ → UpdatePatch → Db → Result Order × Db
  update_order now seller id patch = with_seller_tx seller (update_body now seller id patch)

-- Either there is nothing to set, or the statement goes out with a placeholder that has no argument.
placeholders :
    (seller id : ℕ) (patch : UpdatePatch)
    → let st = statement seller id patch in
      ((patch.buyer_phone ≡ none)
        × (patch.notes ≡ none)
        × (patch.tags ≡ none)
        × (ltb 2 (count_args st.args) ≡ false))
      ⊎ (st.id_at + 1 ≡ count_args st.args + 1)
placeholders seller id patch = elim (Option-cases patch.buyer_phone) [
  | inl a ↦ elim (Option-cases patch.notes) [
    | inl b ↦ elim (Option-cases patch.tags) [
      | inl c ↦ inl (a, b, c, rw (a, b, c) refl)
      | inr (z, c) ↦ inr (rw (a, b, c) refl)
    ]
    | inr (y, b) ↦ inr (elim (Option-cases patch.tags) [
      | inl c ↦ rw (a, b, c) refl
      | inr (z, c) ↦ rw (a, b, c) refl
    ])
  ]
  | inr (x, a) ↦ elim (Option-cases patch.notes) [
    | inl b ↦ inr (elim (Option-cases patch.tags) [
      | inl c ↦ rw (a, b, c) refl
      | inr (z, c) ↦ rw (a, b, c) refl
    ])
    | inr (y, b) ↦ inr (elim (Option-cases patch.tags) [
      | inl c ↦ rw (a, b, c) refl
      | inr (z, c) ↦ rw (a, b, c) refl
    ])
  ]
]

module _ (accepts : ℕ → ℕ → Bool) where
  exec_refused :
      ((highest sent : ℕ) → accepts highest sent ≡ true → highest ≡ sent)
      → (now : ℕ) (st : Statement) (db : Db) → st.id_at + 1 ≡ count_args st.args + 1
      → exec accepts now st db ≡ err database
  unfolding exec
  exec_refused exact now st db more =
      elim (Bool-cases (accepts (st.id_at + 1) (count_args st.args))) [
        | inl taken ↦ absurd (omega (arith, more, exact (st.id_at + 1) (count_args st.args) taken))
        | inr refused ↦ rw refused refl
      ]

  -- Where a statement is taken only if its highest placeholder is the number of its arguments,
  -- Update of an order never changes the tables, and it fails unless the patch has neither a phone
  -- nor notes nor tags.
  pub update_changes_nothing :
      ((highest sent : ℕ) → accepts highest sent ≡ true → highest ≡ sent)
      → (now seller id : ℕ) (patch : UpdatePatch) (db : Db)
      → let (r, t) = update_order accepts now seller id patch db in
        (t ≡ db)
        × ((is_ok r ≡ false)
            ⊎ ((patch.buyer_phone ≡ none) × (patch.notes ≡ none) × (patch.tags ≡ none)))
  unfolding update_order exec_if get_order
  update_changes_nothing exact now seller id patch db = elim (placeholders seller id patch) [
    | inl (a, b, c, short) ↦ (ground (arith, short), inr (a, b, c))
    | inr more ↦
        let refused : exec accepts now (statement seller id patch) db ≡ err database =
          exec_refused exact now (statement seller id patch) db more in
        ground (arith, refused)
  ]
