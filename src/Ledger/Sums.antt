-- ===== src/Ledger/Sums.antt =====
-- Sums over rows that are appended.
use gridix_infra.Prelude.{Bool, Option, List, [], ◌∷◌, ◌++◌, ◌≡◌, sym, inl, inr, Bool-cases}
use gridix_infra.Prelude.Int.{◌+ℤ◌, int_laws, zero-+ℤ, +ℤ_assoc}
use gridix_infra.Models.{LedgerAccount}
use gridix_infra.Models.Rows.{LedgerEntry, Uuid}
use gridix_infra.Ledger.{sum_if, account_balance}

pub sum_if-append :
    (p : LedgerEntry → Bool) (xs ys : List LedgerEntry)
    → sum_if p (xs ++ ys) ≡ sum_if p xs +ℤ sum_if p ys
sum_if-append p [] ys = sym (zero-+ℤ _)
sum_if-append p (x ∷ xs) ys = elim (Bool-cases (p x)) [
  | inl e ↦ rw (e, sum_if-append p xs ys) (sym (+ℤ_assoc _ _ _))
  | inr e ↦ rw e (sum_if-append p xs ys)
]

-- What new rows add to a balance is their own balance.
pub balance-append :
    (xs ys : List LedgerEntry) (account : LedgerAccount) (ref : Option Uuid)
    → account_balance (xs ++ ys) account ref
      ≡ account_balance xs account ref +ℤ account_balance ys account ref
unfolding account_balance
balance-append xs ys account ref =
    rw (sum_if-append _ xs ys, sum_if-append _ xs ys) (omega int_laws)
