-- ===== src/Ledger.antt =====
-- api/app/ledger.py: the double-entry ledger. The proofs are in the modules below.
pub mod Sums
pub mod Integrity
pub mod Audit
pub mod Balances
pub mod Posted
pub mod Stake
mod Tests
use gridix_infra.Prelude.{
  Bool, true, not, ◌&&◌, Option, none, some, String, List, [], ◌∷◌, ◌++◌, map, suc, ◌==◌, any,
  filter, opt_is, if◌then◌else◌,
}
use gridix_infra.Prelude.Int.{ℤ, pos, ◌+ℤ◌, ◌-ℤ◌, ltb_ℤ, leb_ℤ, eqb_ℤ, min_ℤ}
use gridix_infra.Models.{LedgerAccount, LedgerDirection, debit, credit, account_eq, direction_eq}
use gridix_infra.Models.Rows.{LedgerEntry, Uuid}
use gridix_infra.Session.{
  Session, no_postings, unbalanced, check_violation, ok, err, Action, pure, raise, gets, ◌>>=◌,
  ◌>>◌,
}

pub record Posting : Type 0 where
  pub account : LedgerAccount
  pub direction : LedgerDirection
  pub amount : ℤ
  pub account_ref : Option Uuid

abbrev pub posting : LedgerAccount → LedgerDirection → ℤ → Option Uuid → Posting
posting a d x r = record { account = a; direction = d; amount = x; account_ref = r }

-- `postings.append(...)` under `if amount > 0`.
abbrev pub if_positive : ℤ → Posting → List Posting
if_positive x p = if ltb_ℤ (pos 0) x then p ∷ [] else []

-- `sum(p.amount for p in postings if p.direction is d)`
abbrev pub posting_sum : LedgerDirection → List Posting → ℤ
posting_sum d [] = pos 0
posting_sum d (p ∷ ps) =
    let rest = posting_sum d ps in if direction_eq p.direction d then p.amount +ℤ rest else rest

abbrev pub is_negative : Posting → Bool
is_negative p = ltb_ℤ p.amount (pos 0)

-- The row that a posting adds.
abbrev pub entry_of : Uuid → Option Uuid → String → Option String → Posting → LedgerEntry
entry_of group job_id reason tx_hash p = record {
  entry_group = group;
  job_id = job_id;
  account = p.account;
  account_ref = p.account_ref;
  direction = p.direction;
  amount = p.amount;
  reason = reason;
  tx_hash = tx_hash;
}

-- The `add` of every row, and the flush: a row that breaks the table's check dooms the transaction.
unfoldable pub add_rows : List Posting → String → Option Uuid → Option String → Action Uuid
add_rows ps reason job_id tx_hash s =
    let group = s.next_uuid in
    if any is_negative ps
    then (err check_violation, record s { entries = s.committed; next_uuid = suc group })
    else (
      ok group,
      record s {
        entries = s.entries ++ map (entry_of group job_id reason tx_hash) ps;
        next_uuid = suc group;
      },
    )

unfoldable pub post_transaction : List Posting → String → Option Uuid → Option String → Action Uuid
unfolding add_rows
post_transaction [] reason job_id tx_hash = raise no_postings
post_transaction (p ∷ ps) reason job_id tx_hash =
    let debits = posting_sum debit (p ∷ ps) in
    let credits = posting_sum credit (p ∷ ps) in
    if not (eqb_ℤ debits credits)
    then raise (unbalanced debits credits)
    else add_rows (p ∷ ps) reason job_id tx_hash

-- `SELECT coalesce(sum(amount), 0) WHERE p`
abbrev pub sum_if : (LedgerEntry → Bool) → List LedgerEntry → ℤ
sum_if p [] = pos 0
sum_if p (e ∷ es) = let rest = sum_if p es in if p e then e.amount +ℤ rest else rest

-- A scope of `None` takes every reference.
abbrev pub in_scope : Option Uuid → Option Uuid → Bool
in_scope none r = true
in_scope (some q) r = opt_is r q

abbrev pub is_side : LedgerAccount → Option Uuid → LedgerDirection → LedgerEntry → Bool
is_side account ref d e =
    account_eq e.account account && direction_eq e.direction d && in_scope ref e.account_ref

unfoldable pub account_balance : List LedgerEntry → LedgerAccount → Option Uuid → ℤ
account_balance es account ref =
    sum_if (is_side account ref credit) es -ℤ sum_if (is_side account ref debit) es

abbrev pub provider_stake : List LedgerEntry → Uuid → ℤ
provider_stake es p = account_balance es LedgerAccount.stake (some p)

abbrev pub in_group : Uuid → LedgerDirection → LedgerEntry → Bool
in_group g d e = e.entry_group == g && direction_eq e.direction d

abbrev pub member : Uuid → List Uuid → Bool
member g gs = any (λ h. h == g) gs

-- `GROUP BY entry_group`: the groups that have a row, each once.
abbrev pub groups : List LedgerEntry → List Uuid
groups [] = []
groups (e ∷ es) =
    let rest = groups es in if member e.entry_group rest then rest else e.entry_group ∷ rest

-- Debits less credits of one group.
abbrev pub delta : List LedgerEntry → Uuid → ℤ
delta es g = sum_if (in_group g debit) es -ℤ sum_if (in_group g credit) es

unfoldable pub discrepancies_of : List LedgerEntry → List Uuid → List (Uuid × ℤ)
discrepancies_of es [] = []
discrepancies_of es (g ∷ gs) =
    let rest = discrepancies_of es gs in
    if eqb_ℤ (delta es g) (pos 0) then rest else (g, delta es g) ∷ rest

unfoldable pub verify_ledger_integrity : List LedgerEntry → List (Uuid × ℤ)
verify_ledger_integrity es = discrepancies_of es (groups es)

unfoldable pub deposit_stake : Uuid → ℤ → Action Uuid
deposit_stake p amount =
    post_transaction
      (posting LedgerAccount.protocol debit amount none
        ∷ posting LedgerAccount.stake credit amount (some p)
        ∷ [])
      "stake_deposit" none none

unfoldable pub slash_stake : Uuid → ℤ → Option Uuid → Action ℤ
slash_stake p amount job_id = do
  current ← gets (λ s. provider_stake s.entries p)
  let slashed = min_ℤ amount current
  if leb_ℤ slashed (pos 0) then pure (pos 0) else do
    post_transaction
        (posting LedgerAccount.stake debit slashed (some p)
          ∷ posting LedgerAccount.protocol credit slashed none
          ∷ [])
        "slash" job_id none
    pure slashed
