-- ===== src/Results/Finalize.antt =====
-- api/app/results.py: when a job is decided, and what its finished attempts decide.
use gridix_infra.Prelude.{
  Bool, false, not, ◌&&◌, ◌==◌, Option, none, some, List, [], ◌∷◌, map, filter, find, length, all,
  any, is_some, if◌then◌else◌, leb,
}
use gridix_infra.Models.{AttemptOutcome, JobStatus, outcome_eq}
use gridix_infra.Models.Rows.{Job, JobAttempt, Timestamp, Uuid}
use gridix_infra.Quorum.{QuorumOutcome, evaluate_quorum}
use gridix_infra.StateMachine.{Transition, moved, illegal, is_terminal, transition}
use gridix_infra.Adjudicate.{attempt_result}

-- The decided job and its winner, or what is raised: an illegal transition, or the `StopIteration`
-- of a quorum whose agreers have no completed attempt, or the TypeError of an output hash that is a
-- list or an object.
pub data Decision : Type 0 where
  decided : Job → Option Uuid → Decision
  illegal_transition : JobStatus → JobStatus → Decision
  no_winner unhashable : Decision

abbrev pub decided_as : Option Uuid → Transition → Decision
decided_as winner (moved job) = decided job winner
decided_as winner (illegal from target) = illegal_transition from target

-- The agreeing attempt whose result the job takes.
abbrev pub winner_among : List Uuid → List JobAttempt → Option JobAttempt
winner_among agreers attempts =
    find
      (λ a. any (λ p. p == a.provider_id) agreers && outcome_eq a.outcome AttemptOutcome.completed)
      attempts

abbrev pub all_timed_out : List JobAttempt → Bool
all_timed_out [] = false
all_timed_out (a ∷ attempts) = all (λ b. outcome_eq b.outcome AttemptOutcome.timeout) (a ∷ attempts)

abbrev pub complete_with : Timestamp → Job → Option JobAttempt → Decision
complete_with now job none = no_winner
complete_with now job (some winner) = decided_as (some winner.provider_id) (
    transition (record job { result_ref = winner.result_ref; proof = winner.proof })
      JobStatus.completed now)

abbrev pub decide_by : Timestamp → Job → List JobAttempt → QuorumOutcome → Decision
decide_by now job attempts outcome =
    if outcome.reached
    then complete_with now job (winner_among outcome.agreers attempts)
    else decided_as none (
        transition job (if all_timed_out attempts then JobStatus.timeout else JobStatus.failed) now)

abbrev pub finished_of : List JobAttempt → List JobAttempt
finished_of attempts = filter (λ a. is_some a.finished_at) attempts

abbrev pub decide_from : Timestamp → Job → List JobAttempt → Option QuorumOutcome → Decision
decide_from now job attempts none = unhashable
decide_from now job attempts (some outcome) = decide_by now job attempts outcome

-- The first half of `_finalize`, on the job's finished attempts.
unfoldable pub decide_job : Timestamp → Job → List JobAttempt → Decision
decide_job now job attempts =
    decide_from now job attempts (evaluate_quorum (map attempt_result attempts) job.redundancy)

-- Whether `maybe_finalize` goes on to finalize.
abbrev pub is_ready : Job → List JobAttempt → Bool
is_ready job attempts =
    not (is_terminal job.status) && leb job.redundancy (length (finished_of attempts))
