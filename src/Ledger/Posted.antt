-- ===== src/Ledger/Posted.antt =====
-- An accepted transaction of any number of legs: the session after it, and the balances.
use gridix_infra.Session.{Session}
use gridix_infra.Models.{LedgerAccount, debit, credit}
use gridix_infra.Models.Rows.{Uuid, LedgerEntry}
use gridix_infra.Prelude.{
  String, Option, List, ◌++◌, map, suc, ◌≡◌, ◌∷◌, any, false, [], Bool-cases, inr, inl, ◌∙◌, sym,
}
use gridix_infra.Prelude.Int.{ℤ, pos, ◌+ℤ◌, int_laws, at_least_zero, eq→eqb_ℤ, max_ℤ, ltb_ℤ}
use gridix_infra.Ledger.{
  post_transaction, add_rows, Posting, posting_sum, is_negative, account_balance, if_positive,
  posting, entry_of, ok,
}
use gridix_infra.Ledger.Sums.{balance-append}
use gridix_infra.Ledger.Balances.{share, credit_row, share-zero}
use mathlib.Core.List.{map-append}

pub balance-nil : (c : LedgerAccount) (q : Option Uuid) → account_balance [] c q ≡ pos 0
unfolding account_balance
balance-nil c q = omega int_laws

module _ (reason : String) (job_id : Option Uuid) (tx : Option String) where
  abbrev pub rows : Uuid → List Posting → List LedgerEntry
  rows n ps = map (entry_of n job_id reason tx) ps

  abbrev pub posted : List Posting → Session → Session
  posted ps s = record s { entries = s.entries ++ rows s.next_uuid ps; next_uuid = suc s.next_uuid }

  -- What is accepted: equal debits and credits, and no negative amount.
  pub post_transaction_accepts :
      (p : Posting) (ps : List Posting) (s : Session)
      → posting_sum debit (p ∷ ps) ≡ posting_sum credit (p ∷ ps)
      → any is_negative (p ∷ ps) ≡ false
      → post_transaction (p ∷ ps) reason job_id tx s ≡ (ok s.next_uuid, posted (p ∷ ps) s)
  unfolding post_transaction add_rows
  post_transaction_accepts p ps s e h = rw (eq→eqb_ℤ _ _ e) (rw h)

  -- What a credit that is left out unless positive adds to a balance.
  pub balance-if_positive :
      (n : Uuid) (x : ℤ) (b : LedgerAccount) (t : Option Uuid) (c : LedgerAccount) (q : Option Uuid)
      → account_balance (rows n (if_positive x (posting b credit x t))) c q
        ≡ share c q b t (at_least_zero x)
  unfolding max_ℤ
  balance-if_positive n x b t c q = elim (Bool-cases (ltb_ℤ (pos 0) x)) [
    | inl e ↦ rw e (credit_row n job_id reason tx b t x c q)
    | inr e ↦ rw e (balance-nil c q ∙ sym (share-zero c b q t))
  ]

  pub balance-posted :
      (ps qs : List Posting) (n : Uuid) (c : LedgerAccount) (q : Option Uuid)
      → account_balance (rows n (ps ++ qs)) c q
        ≡ account_balance (rows n ps) c q +ℤ account_balance (rows n qs) c q
  balance-posted ps qs n c q =
      rw (map-append (entry_of n job_id reason tx) ps qs)
        (balance-append (rows n ps) (rows n qs) c q)
