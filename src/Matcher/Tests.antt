-- ===== src/Matcher/Tests.antt =====
-- Two providers, one without stake.
use gridix_infra.Matcher.Dispatch.{assign_providers-IsEligible}
use gridix_infra.Ledger.{account_balance}
use gridix_infra.StateMachine.{transition, stamp}
use gridix_infra.Matcher.Policies.{IsEligible}
use gridix_infra.Assignment.{Claim, assign_providers}
use gridix_infra.Matcher.{Tables, reputation_candidates, is_capable}
use gridix_infra.Models.Rows.{LedgerEntry}
use gridix_infra.Prelude.{[], ◌∷◌, none, some, ◌≡◌, refl, All, length, ◌≤◌}
use gridix_infra.Prelude.Int.{pos, ◌-ℤ◌, ◌+ℤ◌}
use gridix_infra.Models.{LedgerAccount, credit}
use gridix_infra.Models.Samples.{new_job, plain_provider}
use gridix_infra.Config.{default_settings}

abbrev staked : LedgerEntry
staked = record {
  entry_group = 1;
  job_id = none;
  account = LedgerAccount.stake;
  account_ref = some 21;
  direction = credit;
  amount = pos 20_000_000_000;
  reason = "stake_deposit";
  tx_hash = none;
}

abbrev tables : Tables
tables = record {
  providers = record plain_provider { id = 22 } ∷ plain_provider ∷ [];
  jobs = [];
  artifacts = [];
  entries = staked ∷ [];
}

only_staked : reputation_candidates default_settings 0 tables new_job ≡ plain_provider ∷ []
unfolding reputation_candidates is_capable account_balance ◌-ℤ◌ ◌+ℤ◌
only_staked = refl

abbrev new_claim : Claim
new_claim = record { job = new_job; attempts = [] }

assign_providers-IsEligible_example :
    All (IsEligible default_settings 0 tables new_job) (plain_provider ∷ [])
    × (length (plain_provider ∷ []) ≤ 1)
unfolding assign_providers transition stamp reputation_candidates is_capable account_balance ◌-ℤ◌
    ◌+ℤ◌
assign_providers-IsEligible_example =
    assign_providers-IsEligible default_settings 0 tables new_claim (plain_provider ∷ []) _ refl
