-- ===== src/Wallet/Runs.antt =====
-- Sequences of calls to backend/internal/wallet/service_impl.go: what a call of one seller leaves
-- alone, and what holds after any calls whose references are new.
use pikship.Prelude.{
  ℕ, ◌≤◌, String, ◌≡◌, refl, sym, ◌∙◌, inl, inr, Bool, true, false, none, some, List, ◌∷◌, arith,
  ◌==◌, ==-self, Bool-cases, Option-cases,
}
use mathlib.Core.Path.{subst}
use pikship.Prelude.Int.{ℤ, pos, ◌+ℤ◌, neg, int_laws}
use pikship.Prelude.Int64.{IsInt64, wrap}
use pikship.Prelude.Table.{
  select, update, any, count, any→count, any-select, without, without-update,
}
use pikship.Wallet.Rows.{HoldStatus, credit, debit, Ref, Account, Hold, LedgerEntry, Db}
use pikship.Wallet.Repo.{
  owns, is_account, is_hold, same_event, conflicts, set_id, resolve, add_balance, add_hold_total,
  new_account, get_account_for_update, get_hold_for_update, insert_ledger_entry, add_entry,
  update_balance, update_hold_total, insert_or_get_hold, take_over_hold, add_hold, resolve_hold,
}
use pikship.Wallet.Service.{ensure, credit_account, debit_account, reserve, confirm, release}
use pikship.Wallet.Effects.{IsNewEntry, IsNewHold, ensure-cases}
use pikship.Wallet.Totals.{only_if, held_total, balance_total}
use pikship.Wallet.Consistent.{IsConsistent}
use pikship.Wallet.Invariant.{
  is_stale, confirm-IsConsistent, release-IsConsistent, credit-IsConsistent, debit-IsConsistent,
  reserve-IsConsistent,
}

-- A call of the service, with the ids and the time that it draws.
pub data Call : Type 0 where
  ensures : ℕ → Call
  credits : ℕ → ℤ → Ref → String → String → Call
  debits : ℕ → ℤ → Ref → String → String → Call
  reserves : ℕ → ℕ → ℤ → Ref → ℕ → Call
  confirms : ℕ → ℕ → Ref → String → String → Call
  releases : ℕ → Call

-- The tables after a call of `seller`.
unfoldable pub after : ℕ → Call → Db → Db
after seller (Call.ensures fresh) db = (ensure fresh seller db).1
after seller (Call.credits fresh x ref why who) db =
    (credit_account fresh seller x ref why who db).1
after seller (Call.debits fresh x ref why who) db = (debit_account fresh seller x ref why who db).1
after seller (Call.reserves fresh now x ref ttl) db = (reserve fresh now seller x ref ttl db).1
after seller (Call.confirms fresh hold ref why who) db =
    (confirm fresh seller hold ref why who db).1
after seller (Call.releases hold) db = (release seller hold db).1

abbrev pub hold_of : ℕ → Hold → Bool
hold_of seller h = h.seller_id == seller

abbrev pub entry_of : ℕ → LedgerEntry → Bool
entry_of seller e = e.seller_id == seller

-- The rows of the other sellers are the same.
pub record SameElsewhere (seller : ℕ) (db t : Db) : Type 0 where
  pub accounts : without (owns seller) t.accounts ≡ without (owns seller) db.accounts
  pub holds : without (hold_of seller) t.holds ≡ without (hold_of seller) db.holds
  pub ledger : without (entry_of seller) t.ledger ≡ without (entry_of seller) db.ledger

same_accounts :
    (seller w : ℕ) (f : Account → Account)
    → ((a : Account) → owns seller (f a) ≡ owns seller a)
    → (xs : List Account)
    → without (owns seller) (update (is_account seller w) f xs) ≡ without (owns seller) xs
same_accounts seller w f keep xs =
    without-update (is_account seller w) (owns seller) f (λ a h. ground arith) keep xs

credit-SameElsewhere :
    (fresh seller : ℕ) (x : ℤ) (ref : Ref) (why who : String) (db : Db)
    → SameElsewhere seller db (credit_account fresh seller x ref why who db).1
unfolding credit_account get_account_for_update insert_ledger_entry add_entry update_balance
credit-SameElsewhere fresh seller x ref why who db =
    elim (Option-cases (select (owns seller) db.accounts)) [
      | inl gone ↦ ground arith
      | inr (a, found) ↦
          ground (
            arith,
            ==-self seller,
            same_accounts seller a.id (add_balance x) (λ b. refl) db.accounts,
          )
    ]

debit-SameElsewhere :
    (fresh seller : ℕ) (x : ℤ) (ref : Ref) (why who : String) (db : Db)
    → SameElsewhere seller db (debit_account fresh seller x ref why who db).1
unfolding debit_account get_account_for_update insert_ledger_entry add_entry update_balance
debit-SameElsewhere fresh seller x ref why who db =
    elim (Option-cases (select (owns seller) db.accounts)) [
      | inl gone ↦ ground arith
      | inr (a, found) ↦ ground (
        arith,
        ==-self seller,
        same_accounts seller a.id (add_balance (wrap (neg x))) (λ b. refl) db.accounts,
      )
    ]

reserve-SameElsewhere :
    (fresh now seller : ℕ) (x : ℤ) (ref : Ref) (ttl : ℕ) (db : Db)
    → SameElsewhere seller db (reserve fresh now seller x ref ttl db).1
unfolding reserve get_account_for_update insert_or_get_hold take_over_hold add_hold
    update_hold_total
reserve-SameElsewhere fresh now seller x ref ttl db =
    elim (Option-cases (select (owns seller) db.accounts)) [
      | inl gone ↦ ground arith
      | inr (a, found) ↦ ground (
        arith,
        ==-self seller,
        same_accounts seller a.id (add_hold_total x) (λ b. refl) db.accounts,
        without-update (conflicts seller ref) (hold_of seller) (set_id fresh)
            (λ h hit. ground arith) (λ h. refl) db.holds,
      )
    ]

confirm-SameElsewhere :
    (fresh seller hold : ℕ) (ref : Ref) (why who : String) (db : Db)
    → SameElsewhere seller db (confirm fresh seller hold ref why who db).1
unfolding confirm get_hold_for_update insert_ledger_entry add_entry resolve_hold update_balance
    update_hold_total
confirm-SameElsewhere fresh seller hold ref why who db =
    elim (Option-cases (select (is_hold seller hold) db.holds)) [
      | inl gone ↦ ground arith
      | inr (h, found) ↦
          let cash = wrap (neg h.amount) in
          ground (
            arith,
            same_accounts seller h.wallet_id (add_balance cash) (λ b. refl) db.accounts,
            same_accounts seller h.wallet_id (add_hold_total cash) (λ b. refl)
                (update (is_account seller h.wallet_id) (add_balance cash) db.accounts),
            without-update (is_hold seller h.id) (hold_of seller)
                (resolve HoldStatus.confirmed (some fresh)) (λ g hit. ground arith) (λ g. refl)
                db.holds,
          )
    ]

release-SameElsewhere :
    (seller hold : ℕ) (db : Db) → SameElsewhere seller db (release seller hold db).1
unfolding release get_hold_for_update resolve_hold update_hold_total
release-SameElsewhere seller hold db = elim (Option-cases (select (is_hold seller hold) db.holds)) [
  | inl gone ↦ ground arith
  | inr (h, found) ↦ ground (
    arith,
    same_accounts seller h.wallet_id (add_hold_total (wrap (neg h.amount))) (λ b. refl) db.accounts,
    without-update (is_hold seller h.id) (hold_of seller) (resolve HoldStatus.released none)
        (λ g hit. ground arith) (λ g. refl) db.holds,
  )
]

-- A call of one seller (EnsureAccount, Credit, Debit, Reserve, Confirm or Release) leaves the
-- accounts, holds and ledger entries of all other sellers as they are.
pub after-SameElsewhere :
    (seller : ℕ) (call : Call) (db : Db) → SameElsewhere seller db (after seller call db)
unfolding after
after-SameElsewhere seller (Call.ensures fresh) db =
    ground (arith, ==-self seller, ensure-cases fresh seller db)
after-SameElsewhere seller (Call.credits fresh x ref why who) db =
    credit-SameElsewhere fresh seller x ref why who db
after-SameElsewhere seller (Call.debits fresh x ref why who) db =
    debit-SameElsewhere fresh seller x ref why who db
after-SameElsewhere seller (Call.reserves fresh now x ref ttl) db =
    reserve-SameElsewhere fresh now seller x ref ttl db
after-SameElsewhere seller (Call.confirms fresh hold ref why who) db =
    confirm-SameElsewhere fresh seller hold ref why who db
after-SameElsewhere seller (Call.releases hold) db = release-SameElsewhere seller hold db

-- What a call relies on: ids drawn by `uuid.New` are unused, amounts are of type int64, and the
-- reference of a posting or a hold has not been used up by an earlier call.
abbrev pub IsNewCall : ℕ → Call → Db → Type 0
IsNewCall seller (Call.ensures fresh) db = any (λ (h : Hold). h.wallet_id == fresh) db.holds ≡ false
IsNewCall seller (Call.credits fresh x ref why who) db =
    any (same_event ref credit) db.ledger ≡ false
IsNewCall seller (Call.debits fresh x ref why who) db =
    IsInt64 x × (any (same_event ref debit) db.ledger ≡ false)
IsNewCall seller (Call.reserves fresh now x ref ttl) db =
    IsInt64 x × IsNewHold fresh db × (any (is_stale ref) db.holds ≡ false)
IsNewCall seller (Call.confirms fresh hold ref why who) db = IsNewEntry fresh db
IsNewCall seller (Call.releases hold) db = Unit {0}

-- The tables that calls of any sellers lead to.
pub data Reach (s : Db) : Db → Type 0 where
  here : Reach s s
  next :
      {t : Db} (seller : ℕ) (call : Call)
      → Reach s t
      → IsNewCall seller call t
      → Reach s (after seller call t)

opened_one :
    (fresh seller : ℕ) (db : Db)
    → any (λ (a : Account). a.id == fresh) db.accounts ≡ false
    → IsConsistent db
    → (s w : ℕ) → count (is_account s w) (new_account fresh seller ∷ db.accounts) ≤ 1
opened_one fresh seller db unused c s w =
    elim (Bool-cases (is_account s w (new_account fresh seller))) [
      | inl hit ↦
          let none_yet : count (is_account s w) db.accounts ≡ 0 =
            any→count (λ (a : Account). a.id == fresh) (is_account s w) (λ a e. ground arith)
              db.accounts unused in
          rw hit (omega arith)
      | inr miss ↦ rw miss (omega (arith, c.one_account s w))
    ]

nothing_more : (b : Bool) (x : ℤ) → only_if b (pos 0) +ℤ x ≡ x
nothing_more true x = omega int_laws
nothing_more false x = omega int_laws

opened-IsConsistent :
    (fresh seller : ℕ) (db : Db)
    → any (λ (a : Account). a.id == fresh) db.accounts ≡ false
    → any (λ (h : Hold). h.wallet_id == fresh) db.holds ≡ false
    → IsConsistent db
    → IsConsistent (record db { accounts = new_account fresh seller ∷ db.accounts })
unfolding held_total balance_total
opened-IsConsistent fresh seller db unused no_hold c = record {
  one_account = opened_one fresh seller db unused c;
  one_hold = c.one_hold;
  owned = λ s i g e.
      let other : (fresh == g.wallet_id) ≡ false = ground (
        arith,
        any-select (λ (h : Hold). h.wallet_id == fresh) (is_hold s i) g db.holds no_hold e,
      ) in
      rw other (omega (arith, c.owned s i g e));
  amounts = c.amounts;
  held = λ w. nothing_more (fresh == w) (held_total w db.accounts) ∙ c.held w;
  in_books = λ w. nothing_more (fresh == w) (balance_total w db.accounts) ∙ c.in_books w;
}

ensure-IsConsistent :
    (fresh seller : ℕ) (db : Db)
    → any (λ (h : Hold). h.wallet_id == fresh) db.holds ≡ false
    → IsConsistent db
    → IsConsistent (ensure fresh seller db).1
ensure-IsConsistent fresh seller db no_hold c = elim (ensure-cases fresh seller db) [
  | inl same ↦ subst IsConsistent (sym same) c
  | inr (unused, effect) ↦
      subst IsConsistent (sym effect) (opened-IsConsistent fresh seller db unused no_hold c)
]

after-IsConsistent :
    (seller : ℕ) (call : Call) (db : Db)
    → IsNewCall seller call db
    → IsConsistent db
    → IsConsistent (after seller call db)
unfolding after
after-IsConsistent seller (Call.ensures fresh) db n c = ensure-IsConsistent fresh seller db n c
after-IsConsistent seller (Call.credits fresh x ref why who) db n c =
    credit-IsConsistent fresh seller x ref why who db n c
after-IsConsistent seller (Call.debits fresh x ref why who) db n c =
    debit-IsConsistent fresh seller x ref why who db n.0 n.1 c
after-IsConsistent seller (Call.reserves fresh now x ref ttl) db n c =
    reserve-IsConsistent fresh now seller x ref ttl db n.0 n.1 n.2 c
after-IsConsistent seller (Call.confirms fresh hold ref why who) db n c =
    confirm-IsConsistent fresh seller hold ref why who db n c
after-IsConsistent seller (Call.releases hold) db n c = release-IsConsistent seller hold db c

-- Calls of any sellers, in any order, each with unused ids, amounts of type int64 and a
-- reference that no posting or resolved hold has used up, lead from consistent tables to
-- consistent tables: every wallet's hold total is the sum of its active holds and its balance is
-- what its ledger comes to.
pub Reach-IsConsistent : {s t : Db} → Reach s t → IsConsistent s → IsConsistent t
Reach-IsConsistent here c = c
Reach-IsConsistent (next {t = u} seller call r n) c =
    after-IsConsistent seller call u n (Reach-IsConsistent r c)
