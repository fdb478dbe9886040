-- ===== src/Assignment/Tests.antt =====
-- A job that is assigned and then loses its provider.
use gridix_infra.Assignment.Leases.{Reaped, IsLapsed, reap_expired_leases-Reaped}
use gridix_infra.Assignment.Numbers.{Ascending}
use gridix_infra.Assignment.Rounds.{rounds_begun, rounds_begun-bounded}
use gridix_infra.StateMachine.{transition}
use gridix_infra.Prelude.{[], ◌∷◌, some, none, ◌≡◌, refl, arith, All, ◌+◌, ◌≤◌, List}
use gridix_infra.Models.{JobStatus, AttemptOutcome}
use gridix_infra.Models.Samples.{new_job, plain_provider}
use gridix_infra.Models.Rows.{JobAttempt, Uuid}
use gridix_infra.Config.{default_settings}
use gridix_infra.Assignment.{Claim, finished, assign_providers, reap_expired_leases, swept}
use gridix_infra.Assignment.Budget.{assigns, here, next, Reach}

abbrev submitted : Claim
submitted = record { job = new_job; attempts = [] }

abbrev first_attempt : JobAttempt
first_attempt = record {
  job_id = 1;
  provider_id = 21;
  attempt_number = 1;
  outcome = AttemptOutcome.assigned;
  lease_expires_at = some 60_000_005;
  result_ref = none;
  proof = none;
  finished_at = none;
}

abbrev assigned_claim : Claim
assigned_claim = record {
  job = record new_job {
    status = JobStatus.assigned;
    assigned_at = some 5;
    assigned_provider_id = some 21;
    lease_expires_at = some 60_000_005;
    attempt_count = 1;
  };
  attempts = first_attempt ∷ [];
}

assigning :
    assign_providers default_settings 5 (plain_provider ∷ []) submitted
    ≡ finished (plain_provider ∷ []) assigned_claim
unfolding assign_providers transition
assigning = refl

one_round : Reach default_settings submitted assigned_claim
one_round = next here (assigns 5 (plain_provider ∷ []) (plain_provider ∷ []) assigning)

rounds_begun-bounded_example :
    (rounds_begun one_round + 0 ≤ default_settings.max_attempts)
    × Ascending 0 assigned_claim.attempts
rounds_begun-bounded_example =
    rounds_begun-bounded default_settings one_round (omega arith) refl refl

reap_expired_leases-Reaped_example :
    (ids : List Uuid) × (left : List Claim) × (reap_expired_leases default_settings 70_000_000
        (assigned_claim ∷ [])
      ≡ swept ids left)
    × Reaped default_settings 70_000_000 (assigned_claim ∷ []) ids left
    × All (λ c. ¬ IsLapsed 70_000_000 c.job) left
reap_expired_leases-Reaped_example =
    reap_expired_leases-Reaped default_settings 70_000_000 (assigned_claim ∷ [])
