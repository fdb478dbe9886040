-- ===== src/Results/Outcomes.antt =====
-- api/app/results.py: what an attempt's outcome means for its provider.
use gridix_infra.Prelude.{
  Bool, ◌&&◌, ◌||◌, ◌*◌, Option, none, some, String, List, [], ◌∷◌, map, if◌then◌else◌, ltb,
}
use gridix_infra.Prelude.Int.{ℤ, pos}
use gridix_infra.Models.{AttemptOutcome, ReputationKind, outcome_eq}
use gridix_infra.Models.Rows.{
  Job, JobAttempt, Provider, ReputationEvent, Dispute, Evidence, Timestamp, Uuid,
}
use gridix_infra.Config.{Settings, usd}
use gridix_infra.Session.{Action, pure, ◌>>=◌}
use gridix_infra.Quorum.{AttemptResult}
use gridix_infra.Adjudicate.{output_of}
use gridix_infra.Verification.{AgentResultRequest}
use gridix_infra.Reputation.{record_reputation}
use gridix_infra.Penalties.{count_prior_offenses, graduated_slash}
use gridix_infra.Disputes.{open_dispute}

-- `_attempt_outcome`
abbrev pub attempt_outcome : AgentResultRequest → Bool → AttemptOutcome
attempt_outcome req verdict_valid =
    if req.timed_out
    then AttemptOutcome.timeout
    else if verdict_valid
    then AttemptOutcome.completed
    else AttemptOutcome.failed

-- `_HONEST_REP`, with its default.
abbrev pub honest_rep : AttemptOutcome → ReputationKind
honest_rep AttemptOutcome.completed = ReputationKind.job_success
honest_rep AttemptOutcome.timeout = ReputationKind.timeout
honest_rep _ = ReputationKind.job_failure

-- `_slash_evidence`
abbrev pub slash_evidence : Job → JobAttempt → List AttemptResult → Evidence
slash_evidence job attempt all_results = record {
  job_id = job.id;
  kind = job.kind;
  input_ref = job.input_ref;
  expected_output_hash = job.expected_output_hash;
  submitted_output_hash = output_of attempt;
  submitted_result_ref = attempt.result_ref;
  proof = attempt.proof;
  attempt_number = attempt.attempt_number;
  quorum_votes =
      map
        (λ r. record {
          provider_id = r.provider_id;
          output_hash = r.output_hash;
          succeeded = r.succeeded;
        })
        all_results;
}

-- The provider's row, its new events and its new dispute.
pub record Consequence : Type 0 where
  pub provider : Provider
  pub events : List ReputationEvent
  pub dispute : Option Dispute

abbrev pub one_event : Provider → ReputationKind → Uuid → Option Dispute → Consequence
one_event p kind job_id dispute =
    let (q, event) = record_reputation p kind (some job_id) none in
    record { provider = q; events = event ∷ []; dispute = dispute }

-- The reward, and the bonus of a redundant job.
abbrev pub rewarded : Job → Provider → ReputationKind → Consequence
rewarded job p kind =
    let (q, event) = record_reputation p kind (some job.id) none in
    let (r, bonus) = record_reputation q ReputationKind.quorum_agree (some job.id) none in
    if ltb 1 job.redundancy
    then record { provider = r; events = event ∷ bonus ∷ []; dispute = none }
    else record { provider = q; events = event ∷ []; dispute = none }

-- A canary miss or a quorum dissent.
abbrev pub is_cheating : Job → JobAttempt → Bool → Bool
is_cheating job attempt is_canary =
    is_canary || (ltb 1 job.redundancy && outcome_eq attempt.outcome AttemptOutcome.completed)

abbrev pub slash_of : Settings → List Dispute → Uuid → ℤ
slash_of settings disputes p =
    graduated_slash (pos (settings.slash_amount * usd)) (count_prior_offenses disputes p)

-- The slash of a cheating provider.
abbrev pub slash_for :
    (Evidence → String)
    → Settings
    → Timestamp
    → List Dispute
    → Job
    → Provider
    → JobAttempt
    → Bool
    → List AttemptResult
    → Action Consequence
slash_for commitment settings now disputes job p attempt is_canary all_results =
    open_dispute commitment settings now p.id (slash_of settings disputes p.id)
      (if is_canary then "canary_fail" else "quorum_disagree") (some job.id)
      (some (slash_evidence job attempt all_results))
    >>= (λ dispute. pure (
        one_event p
          (if is_canary then ReputationKind.canary_fail else ReputationKind.quorum_disagree) job.id
          (some dispute)))

-- `_apply_outcome`; `disputes` is the table of the disputes so far.
unfoldable pub apply_outcome :
    (Evidence → String)
    → Settings
    → Timestamp
    → List Dispute
    → Job
    → Provider
    → JobAttempt
    → Bool
    → Bool
    → List AttemptResult
    → Action Consequence
apply_outcome commitment settings now disputes job p attempt won is_canary all_results =
    if won
    then pure (
        rewarded job p
          (if is_canary then ReputationKind.canary_pass else ReputationKind.job_success))
    else if is_cheating job attempt is_canary
    then slash_for commitment settings now disputes job p attempt is_canary all_results
    else pure (one_event p (honest_rep attempt.outcome) job.id none)
