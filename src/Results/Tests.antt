-- ===== src/Results/Tests.antt =====
-- A job of 10 USD that runs for a minute.
use gridix_infra.Quorum.Hashes.{hash_eq}
use gridix_infra.Models.Rows.{output_text, output_compound}
use gridix_infra.Results.Finalize.{unhashable, decide_job}
use gridix_infra.Results.Decisions.{decide_job_raises}
use gridix_infra.Results.Returns.{Returns}
use gridix_infra.Verification.{AgentResultRequest}
use gridix_infra.Results.Recording.{Case}
use gridix_infra.Adjudicate.{attempt_result}
use gridix_infra.Quorum.{quorum_of, decide_quorum, most_common, leader, quorum_outcome}
use gridix_infra.Results.Slashing.{slash_dispute, apply_outcome_slashes}
use gridix_infra.Results.Outcomes.{apply_outcome, one_event}
use gridix_infra.Ledger.{deposit_stake}
use gridix_infra.Prelude.{
  none, some, [], ◌≡◌, ◌≤◌, refl, arith, inl, ◌+◌, true, String, false, List, ◌∷◌, map, inr, ◌++◌,
}
use gridix_infra.Prelude.Int.{pos, at_least_zero}
use gridix_infra.Models.{JobStatus, LedgerAccount, AttemptOutcome, ReputationKind}
use gridix_infra.Models.Rows.{Job, JobAttempt, Evidence, Dispute, Scalar}
use gridix_infra.Models.Samples.{new_job, plain_provider}
use gridix_infra.Config.{default_settings}
use gridix_infra.Session.{Session, ok}
use gridix_infra.Ledger.Balances.{Moves}
use gridix_infra.Payments.{hold_escrow, fiat_stub}
use gridix_infra.Pricing.{data_cost, compute_cost}
use gridix_infra.Results.{settle_job, cost_of}
use gridix_infra.Results.Payout.{settle_job_pays, settle_job_refunds, IsPaidOut, cost, fee}

abbrev done_job : Job
done_job = record new_job {
  status = JobStatus.completed;
  started_at = some 0;
  finished_at = some 60_000_000;
}

abbrev held : Session
held =
    (hold_escrow 1 7 (pos 1_000_000_000) (record { entries = []; committed = []; next_uuid = 0 })).1

-- Two cores for a minute.
cost_is : cost_of default_settings done_job 1_000_000_000 ≡ 200_000_000
unfolding compute_cost gridix_infra.Decimal.round_half_up
cost_is = refl

settle_job_pays_example :
    (cost default_settings 0 done_job 1_000_000_000 21 held ≤ 1_000_000_000)
    × ((settle_job fiat_stub default_settings 0 done_job (some 21) held).0
        ≡ ok (record done_job {
          cost_final = some (
              cost default_settings 0 done_job 1_000_000_000 21 held
              + data_cost 0 default_settings);
        }))
    × IsPaidOut done_job 21 1_000_000_000
        (cost default_settings 0 done_job 1_000_000_000 21 held)
        (fee default_settings 0 done_job 1_000_000_000 21 held)
        (data_cost 0 default_settings)
        held
        (settle_job fiat_stub default_settings 0 done_job (some 21) held).1
settle_job_pays_example =
    settle_job_pays default_settings 0 done_job 1_000_000_000 21 held (omega arith) refl refl refl

settle_job_refunds_example :
    ((settle_job fiat_stub default_settings 0 done_job none held).0
      ≡ ok (record done_job { cost_final = some 0 }))
    × Moves LedgerAccount.escrow
        (some 7)
        LedgerAccount.developer
        (some 7)
        (pos 1_000_000_000)
        held
        (settle_job fiat_stub default_settings 0 done_job none held).1
settle_job_refunds_example =
    settle_job_refunds default_settings 0 done_job 1_000_000_000 21 held refl refl none (inl refl)

-- A redundant job, and provider 21's completed attempt on it.
abbrev shared_job : Job
shared_job = record new_job { status = JobStatus.completed; redundancy = 3; is_high_value = true }

abbrev dissent : JobAttempt
dissent = record {
  job_id = 1;
  provider_id = 21;
  attempt_number = 2;
  outcome = AttemptOutcome.completed;
  lease_expires_at = none;
  result_ref = some "blob";
  proof =
      some (record { exit_code = Scalar.number (pos 0); output_sha256 = some (output_text "bb") });
  finished_at = some 60_000_000;
}

-- Provider 21 has 30 USD at stake.
abbrev staked : Session
staked =
    (deposit_stake 21 (pos 3_000_000_000)
      (record { entries = []; committed = []; next_uuid = 0 })).1

abbrev no_commitment : Evidence → String
no_commitment e = "00"

abbrev dispute_of_dissent : Dispute
dispute_of_dissent =
    slash_dispute no_commitment default_settings 9 [] shared_job plain_provider dissent false false
      [] staked

apply_outcome_slashes_example :
    ((apply_outcome no_commitment default_settings 9 [] shared_job plain_provider dissent false
        false [] staked).0
      ≡ ok (one_event plain_provider ReputationKind.quorum_disagree 1 (some dispute_of_dissent)))
    × Moves LedgerAccount.stake
        (some 21)
        LedgerAccount.disputed
        (some 21)
        (at_least_zero dispute_of_dissent.amount)
        staked
        (apply_outcome no_commitment default_settings 9 [] shared_job plain_provider dissent false
          false [] staked).1
apply_outcome_slashes_example =
    apply_outcome_slashes no_commitment default_settings 9 [] shared_job plain_provider dissent
      false false [] staked refl (inr (omega arith, refl))

abbrev running_job : Job
running_job = record new_job { status = JobStatus.running; redundancy = 3; is_high_value = true }

-- One of three attempts agrees with the dissenter's output, one timed out.
abbrev two_of_three : List JobAttempt
two_of_three =
    dissent
    ∷ record dissent { provider_id = 22; attempt_number = 3 }
    ∷ record dissent { provider_id = 23; attempt_number = 4; outcome = AttemptOutcome.timeout }
    ∷ []

two_of_three-reached : (quorum_outcome (map attempt_result two_of_three) 3).reached ≡ true
unfolding quorum_outcome quorum_of decide_quorum most_common leader hash_eq
two_of_three-reached = refl

-- A dissent with a list for a hash, which `verify` accepts of a result without a reference.
abbrev listed : JobAttempt
listed = record dissent {
  result_ref = none;
  proof =
      some (record { exit_code = Scalar.number (pos 0); output_sha256 = some (output_compound 2) });
}

decide_job_raises_example :
    decide_job 70_000_000 running_job ([] ++ listed ∷ two_of_three) ≡ unhashable
decide_job_raises_example =
    decide_job_raises 70_000_000 running_job listed 2 [] two_of_three refl refl

-- Provider 23's result is the third that is recorded, with providers 21 and 22 in agreement.
abbrev third_open : Case
third_open = record {
  job = running_job;
  attempts =
      dissent
      ∷ record dissent { provider_id = 22; attempt_number = 3 }
      ∷ record dissent {
        provider_id = 23;
        attempt_number = 4;
        outcome = AttemptOutcome.assigned;
        finished_at = none;
      }
      ∷ [];
  providers = plain_provider ∷ [];
  events = [];
  disputes = [];
}

abbrev timed_out_result : AgentResultRequest
timed_out_result = record {
  result_ref = none;
  exit_code = pos 124;
  proof = record { exit_code = Scalar.null; output_sha256 = none };
  timed_out = true;
}

-- Provider 23's lease is over, and it never answers.
abbrev silent_third : Case
silent_third = record third_open {
  attempts =
      dissent
      ∷ record dissent { provider_id = 22; attempt_number = 3 }
      ∷ record dissent {
        provider_id = 23;
        attempt_number = 4;
        outcome = AttemptOutcome.assigned;
        finished_at = none;
        lease_expires_at = some 60_000_000;
      }
      ∷ [];
}
