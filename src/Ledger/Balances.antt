-- ===== src/Ledger/Balances.antt =====
-- What an accepted transaction of two legs does to every balance.
use gridix_infra.Prelude.{
  true, ◌&&◌, Option, String, List, [], ◌∷◌, ◌++◌, ◌≡◌, refl, arith, suc, inl, inr, Bool-cases,
  if◌then◌else◌, false,
}
use gridix_infra.Prelude.Int.{
  ℤ, pos, ◌+ℤ◌, ◌-ℤ◌, ◌≤ℤ◌, int_laws, ltb_ℤ, eq→eqb_ℤ, at_least_zero, at_least_zero_nonpos,
  at_least_zero_pos, leb_ℤ→nonneg,
}
use gridix_infra.Models.{LedgerAccount, debit, credit, account_eq}
use gridix_infra.Models.Rows.{Uuid}
use gridix_infra.Session.{Session, ok, err, check_violation}
use gridix_infra.Ledger.{
  Posting, posting, entry_of, add_rows, post_transaction, in_scope, account_balance, leb_ℤ,
}
use gridix_infra.Ledger.Sums.{balance-append}

-- The part of an amount that a leg on an account brings to a balance.
abbrev pub share : LedgerAccount → Option Uuid → LedgerAccount → Option Uuid → ℤ → ℤ
share c q a r x = if account_eq a c && in_scope q r then x else pos 0

module _ (n : Uuid) (job_id : Option Uuid) (reason : String) (tx : Option String)
    (a : LedgerAccount) (r : Option Uuid) (x : ℤ) (c : LedgerAccount) (q : Option Uuid) where
  pub debit_row :
      account_balance (entry_of n job_id reason tx (posting a debit x r) ∷ []) c q
      ≡ pos 0 -ℤ share c q a r x
  unfolding account_balance
  debit_row = elim (Bool-cases (account_eq a c)) [
    | inl e ↦ elim (Bool-cases (in_scope q r)) [
      | inl m ↦ rw (e, m) (omega int_laws)
      | inr m ↦ rw (e, m) (omega int_laws)
    ]
    | inr e ↦ rw e (omega int_laws)
  ]

  pub credit_row :
      account_balance (entry_of n job_id reason tx (posting a credit x r) ∷ []) c q
      ≡ share c q a r x
  unfolding account_balance
  credit_row = elim (Bool-cases (account_eq a c)) [
    | inl e ↦ elim (Bool-cases (in_scope q r)) [
      | inl m ↦ rw (e, m) (omega int_laws)
      | inr m ↦ rw (e, m) (omega int_laws)
    ]
    | inr e ↦ rw e (omega int_laws)
  ]

module _ (a : LedgerAccount) (r : Option Uuid) (b : LedgerAccount) (t : Option Uuid) (x : ℤ) where
  -- The legs that move an amount out of one account and into another.
  abbrev pub legs : List Posting
  legs = posting a debit x r ∷ posting b credit x t ∷ []

  module _ (reason : String) (job_id : Option Uuid) (tx : Option String) where
    abbrev pub transferred : Session → Session
    transferred s = record s {
      entries =
          s.entries
          ++ entry_of s.next_uuid job_id reason tx (posting a debit x r)
            ∷ entry_of s.next_uuid job_id reason tx (posting b credit x t)
            ∷ [];
      next_uuid = suc s.next_uuid;
    }

    legs_accepted :
        (s : Session) → post_transaction legs reason job_id tx s ≡ add_rows legs reason job_id tx s
    unfolding post_transaction
    legs_accepted s = rw (eq→eqb_ℤ _ _ refl)

    pub post-legs :
        (s : Session)
        → pos 0 ≤ℤ x
        → post_transaction legs reason job_id tx s ≡ (ok s.next_uuid, transferred s)
    post-legs s h = rw (legs_accepted s) (unfold add_rows in ground arith)

    pub post-legs_negative :
        (s : Session)
        → ltb_ℤ x (pos 0) ≡ true
        → post_transaction legs reason job_id tx s
          ≡ (err check_violation, record s { entries = s.committed; next_uuid = suc s.next_uuid })
    post-legs_negative s h = rw (legs_accepted s) (unfold add_rows in ground arith)

    -- Every balance after the transfer, whatever its account and its scope.
    pub balance-transferred :
        (s : Session) (c : LedgerAccount) (q : Option Uuid)
        → account_balance (transferred s).entries c q
          ≡ account_balance s.entries c q -ℤ share c q a r x +ℤ share c q b t x
    balance-transferred s c q =
        rw
          (
            balance-append s.entries _ c q,
            balance-append (entry_of s.next_uuid job_id reason tx (posting a debit x r) ∷ []) _ c q,
            debit_row s.next_uuid job_id reason tx a r x c q,
            credit_row s.next_uuid job_id reason tx b t x c q,
          )
          (omega int_laws)

-- An amount moves out of one account and into another, and every balance shows it, in any scope.
abbrev pub Moves :
    LedgerAccount → Option Uuid → LedgerAccount → Option Uuid → ℤ → Session → Session → Type 0
Moves a r b t x s s' =
    (c : LedgerAccount) (q : Option Uuid)
    → account_balance s'.entries c q
      ≡ account_balance s.entries c q -ℤ share c q a r x +ℤ share c q b t x

pub share-zero : (c a : LedgerAccount) (q r : Option Uuid) → share c q a r (pos 0) ≡ pos 0
share-zero c a q r = elim (Bool-cases (account_eq a c && in_scope q r)) [
  | inl e ↦ rw e
  | inr e ↦ rw e
]

-- Moving nothing.
pub Moves-zero : (a b : LedgerAccount) (r t : Option Uuid) (s : Session) → Moves a r b t (pos 0) s s
Moves-zero a b r t s c q = rw (share-zero c a q r, share-zero c b q t) (omega int_laws)

module _ (a : LedgerAccount) (r : Option Uuid) (b : LedgerAccount) (t : Option Uuid) (x : ℤ)
    (reason : String) (job_id : Option Uuid) (tx : Option String) where
  -- A transfer that is skipped unless the amount is positive.
  abbrev pub moved : Session → Session
  moved s = if leb_ℤ x (pos 0) then s else transferred a r b t x reason job_id tx s

  pub Moves-moved : (s : Session) → Moves a r b t (at_least_zero x) s (moved s)
  Moves-moved s = elim (Bool-cases (leb_ℤ x (pos 0))) [
    | inl e ↦ rw (e, at_least_zero_nonpos x e) (Moves-zero a b r t s)
    | inr e ↦ rw (e, at_least_zero_pos x e) (balance-transferred a r b t x reason job_id tx s)
  ]

  pub post-legs_pos :
      (s : Session)
      → leb_ℤ x (pos 0) ≡ false
      → post_transaction (legs a r b t x) reason job_id tx s
        ≡ (ok s.next_uuid, transferred a r b t x reason job_id tx s)
  post-legs_pos s e = post-legs a r b t x reason job_id tx s (leb_ℤ→nonneg x e)
