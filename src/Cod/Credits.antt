-- ===== src/Cod/Credits.antt =====
-- A remittance's credit to the wallet (backend/internal/cod/cod.go), made twice under one reference.
use pikship.Prelude.{
  ℕ, String, ◌≡◌, sym, ap, ◌∙◌, inl, inr, true, false, some, arith, str_eq_self, Option-cases, ◌∷◌,
}
use mathlib.Core.Path.{subst}
use pikship.Prelude.Int.{ℤ, ◌+ℤ◌}
use pikship.Prelude.Table.{select, any}
use pikship.Prelude.Tx.{ok}
use pikship.Wallet.Rows.{credit, Ref, LedgerEntry, Account, ref_eq}
use pikship.Wallet.Rows
use pikship.Wallet.Repo.{
  owns, same_event, add_entry, add_balance, get_account_for_update, insert_ledger_entry,
  update_balance,
}
use pikship.Wallet.Service.{credit_account, entry}
use pikship.Wallet.Consistent.{IsConsistent}
use pikship.Wallet.Invariant.{credit-IsConsistent}
use pikship.Wallet.Effects.{credit_missing, credit_found}
use pikship.Wallet.Totals.{balance_total}
use pikship.Wallet.Guards.{charged}
use pikship.Wallet.Breaks.{credit_replay_breaks, credited}

-- A credit that succeeds leaves an entry with its reference.
credit-enters :
    (fresh seller : ℕ) (amount : ℤ) (ref : Ref) (reason actor : String) (w : pikship.Wallet.Rows.Db)
    → (credit_account fresh seller amount ref reason actor w).0 ≡ ok tt
    → any (same_event ref credit) (credit_account fresh seller amount ref reason actor w).1.ledger
      ≡ true
unfolding credit_account get_account_for_update insert_ledger_entry add_entry update_balance
credit-enters fresh seller amount ref reason actor w done =
    elim (Option-cases (select (owns seller) w.accounts)) [
      | inl gone ↦ absurd (ground arith)
      | inr (a, found) ↦ ground (arith, str_eq_self ref.kind, str_eq_self ref.id)
    ]

-- A credit under a new reference that succeeds, and one under the same reference that succeeds too.
pub twice :
    (fresh later seller : ℕ) (amount : ℤ) (ref : Ref) (reason actor : String)
    (w t u : pikship.Wallet.Rows.Db)
    → IsConsistent w
    → any (same_event ref credit) w.ledger ≡ false
    → t ≡ (credit_account fresh seller amount ref reason actor w).1
    → (credit_account fresh seller amount ref reason actor w).0 ≡ ok tt
    → (credit_account later seller amount ref reason actor t).0 ≡ ok tt
    → u ≡ (credit_account later seller amount ref reason actor t).1
    → (a : Account) × (select (owns seller) w.accounts ≡ some a)
      × (balance_total a.id u.accounts ≡ (balance_total a.id w.accounts +ℤ amount) +ℤ amount)
      × (u.ledger ≡ entry fresh a.id seller credit amount ref reason actor ∷ w.ledger)
      × (¬ IsConsistent u)
twice fresh later seller amount ref reason actor w t u books new is paid again after =
    elim (Option-cases (select (owns seller) w.accounts)) [
      | inl gone ↦
          absurd (ground (arith, credit_missing fresh seller amount ref reason actor w gone))
      | inr (a, found) ↦ elim (credit_found fresh seller a amount ref reason actor w found new) [
        | inl same ↦
            let there = credit-enters fresh seller amount ref reason actor w paid in
            absurd (ground (arith, same))
        | inr (done, effect) ↦
            let steady : IsConsistent t =
              subst IsConsistent (sym is)
                (credit-IsConsistent fresh seller amount ref reason actor w new books) in
            let entered : any (same_event ref credit) t.ledger ≡ true =
              ap (λ (x : pikship.Wallet.Rows.Db). any (same_event ref credit) x.ledger) is
              ∙ credit-enters fresh seller amount ref reason actor w paid in
            let (b, found', grown, kept, broken) =
              credit_replay_breaks later seller amount ref reason actor t steady entered again in
            let at = is ∙ effect in
            let there : select (owns seller) t.accounts ≡ some (add_balance amount a) =
              ap (λ (x : pikship.Wallet.Rows.Db). select (owns seller) x.accounts) at
              ∙ charged seller a amount w found in
            let same : b.id ≡ a.id = ground (arith, there, found') in
            let first : balance_total a.id t.accounts ≡ balance_total a.id w.accounts +ℤ amount =
              ap (λ (x : pikship.Wallet.Rows.Db). balance_total a.id x.accounts) at
              ∙ credited seller a amount w books found in
            (
              a,
              found,
              ap (λ (x : pikship.Wallet.Rows.Db). balance_total a.id x.accounts) after
                  ∙ subst
                      (λ i.
                        balance_total i
                          (credit_account later seller amount ref reason actor t).1.accounts
                        ≡ balance_total i t.accounts +ℤ amount)
                      same grown
                  ∙ ap (λ (x : ℤ). x +ℤ amount) first,
              ap (λ (x : pikship.Wallet.Rows.Db). x.ledger) after
                  ∙ kept
                  ∙ ap (λ (x : pikship.Wallet.Rows.Db). x.ledger) at,
              λ sound. broken (subst IsConsistent after sound),
            )
      ]
    ]
