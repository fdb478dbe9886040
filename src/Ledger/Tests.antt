-- ===== src/Ledger/Tests.antt =====
-- Runs of the ledger, and its theorems at them.
use gridix_infra.Models.Rows.{Uuid}
use gridix_infra.Models.{LedgerAccount, credit, debit}
use gridix_infra.Ledger.Integrity.{IsBalanced, post_transaction-IsBalanced}
use gridix_infra.Prelude.{◌≡◌, none, [], ◌↔◌, refl, some, ◌∷◌, List}
use gridix_infra.Session.{Session}
use gridix_infra.Prelude.Int.{pos, negsuc, ◌+ℤ◌, ◌-ℤ◌}
use gridix_infra.Ledger.{
  provider_stake, deposit_stake, verify_ledger_integrity, post_transaction, account_balance,
  discrepancies_of, sum_if, in_group, Posting, posting,
}
use gridix_infra.Ledger.Audit.{verify_ledger_integrity_iff}

abbrev empty_session : Session
empty_session = record { entries = []; committed = []; next_uuid = 0 }

-- Provider 21 has 30 USD at stake.
abbrev staked : Session
staked = (deposit_stake 21 (pos 3_000_000_000) empty_session).1

stake_is : provider_stake staked.entries 21 ≡ pos 3_000_000_000
unfolding deposit_stake post_transaction account_balance ◌+ℤ◌ ◌-ℤ◌
stake_is = refl

-- A row that lost its counterpart is reported with its difference.
orphan_reported :
    verify_ledger_integrity (
      record {
        entry_group = 4;
        job_id = none;
        account = LedgerAccount.stake;
        account_ref = some 21;
        direction = credit;
        amount = pos 5;
        reason = "stake_deposit";
        tx_hash = none;
      }
      ∷ [])
    ≡ (4, negsuc 4) ∷ []
unfolding verify_ledger_integrity discrepancies_of ◌+ℤ◌ ◌-ℤ◌
orphan_reported = refl

verify_ledger_integrity_iff_example : (verify_ledger_integrity staked.entries ≡ []) ↔ (
    (g : Uuid)
    → sum_if (in_group g debit) staked.entries ≡ sum_if (in_group g credit) staked.entries)
verify_ledger_integrity_iff_example = verify_ledger_integrity_iff staked.entries

empty-IsBalanced : IsBalanced empty_session
empty-IsBalanced = record {
  working = record { balanced = λ g. refl; fresh = λ g le. refl };
  durable = record { balanced = λ g. refl; fresh = λ g le. refl };
}

-- A deposit of 30 USD to the stake.
abbrev deposit_legs : List Posting
deposit_legs =
    posting LedgerAccount.protocol debit (pos 3_000_000_000) none
    ∷ posting LedgerAccount.stake credit (pos 3_000_000_000) (some 21)
    ∷ []

post_transaction-IsBalanced_example :
    IsBalanced (post_transaction deposit_legs "stake_deposit" none none empty_session).1
post_transaction-IsBalanced_example =
    post_transaction-IsBalanced deposit_legs "stake_deposit" none none empty_session
      empty-IsBalanced
