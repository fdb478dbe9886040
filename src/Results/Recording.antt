-- ===== src/Results/Recording.antt =====
-- api/app/results.py: recording a result, and finalizing the job once its attempts are in, on the
-- rows that this reads and writes. The clock is read once.
use gridix_infra.Results.{settle_job}
use gridix_infra.Adjudicate.{attempt_result}
use gridix_infra.Models.{status_eq, JobStatus, kind_eq, JobKind, AttemptOutcome}
use gridix_infra.StateMachine.{Transition, is_terminal, illegal, moved, transition}
use gridix_infra.Session.{
  Action, pure, raise, ◌>>=◌, refused_transition, stop_iteration, type_error,
}
use gridix_infra.Quorum.{AttemptResult, QuorumOutcome, quorum_outcome}
use gridix_infra.Config.{Settings}
use gridix_infra.Verification.{AgentResultRequest, verify}
use gridix_infra.Payments.{PaymentProvider}
use gridix_infra.Results.Outcomes.{Consequence, attempt_outcome, apply_outcome}
use gridix_infra.Models.Rows.{
  Job, Uuid, JobAttempt, Timestamp, Dispute, Evidence, Provider, ReputationEvent,
}
use gridix_infra.Results.Finalize.{
  decide_job, Decision, illegal_transition, is_ready, finished_of, decided,
}
use gridix_infra.Prelude.{
  [], ◌∷◌, none, some, Option, List, map, Bool, if◌then◌else◌, ◌++◌, ◌==◌, ltb, String, find, ◌&&◌,
  not, ℕ, is_some, any, false, ◌||◌,
}

-- The job, its attempts, and the tables of providers, reputation events and disputes.
pub record Case : Type 0 where
  pub job : Job
  pub attempts : List JobAttempt
  pub providers : List Provider
  pub events : List ReputationEvent
  pub disputes : List Dispute

abbrev pub filed : Option Dispute → List Dispute → List Dispute
filed none disputes = disputes
filed (some d) disputes = disputes ++ d ∷ []

abbrev pub absorb : Case → Consequence → Case
absorb case c = record case {
  providers = map (λ q. if q.id == c.provider.id then c.provider else q) case.providers;
  events = case.events ++ c.events;
  disputes = filed c.dispute case.disputes;
}

abbrev pub provider_of : Uuid → List Provider → Option Provider
provider_of p providers = find (λ q. q.id == p) providers

-- `_attempt_for`: of the provider's unfinished attempts the one with the greatest number.
abbrev pub is_open_of : Uuid → JobAttempt → Bool
is_open_of p a = a.provider_id == p && not (is_some a.finished_at)

abbrev pub later : JobAttempt → Option JobAttempt → JobAttempt
later a none = a
later a (some b) = if ltb a.attempt_number b.attempt_number then b else a

abbrev pub attempt_for : Uuid → List JobAttempt → Option JobAttempt
attempt_for p [] = none
attempt_for p (a ∷ attempts) =
    let rest = attempt_for p attempts in if is_open_of p a then some (later a rest) else rest

-- The attempt with the result; the number of an attempt is unique in its job.
abbrev pub fill_in :
    Timestamp → AgentResultRequest → Bool → Option JobAttempt → List JobAttempt → List JobAttempt
fill_in now req valid none attempts = attempts
fill_in now req valid (some a) attempts =
    map
      (λ b.
        if b.attempt_number == a.attempt_number
        then record b {
          result_ref = req.result_ref;
          proof = some req.proof;
          finished_at = some now;
          outcome = attempt_outcome req valid;
        }
        else b)
      attempts

-- An unfinished attempt whose lease has lapsed, and what becomes of it.
abbrev pub is_stale : Timestamp → JobAttempt → Bool
is_stale now a =
    not (is_some a.finished_at)
    && elim a.lease_expires_at [ none ↦ false | some lease ↦ ltb lease now ]

abbrev pub give_up : Timestamp → JobAttempt → JobAttempt
give_up now a =
    if is_stale now a
    then record a { outcome = AttemptOutcome.reassigned; finished_at = some now }
    else a

abbrev pub is_redundant_active : Job → Bool
is_redundant_active job =
    ltb 1 job.redundancy
    && (status_eq job.status JobStatus.assigned || status_eq job.status JobStatus.running)

module _ (payment : PaymentProvider) (commitment : Evidence → String) (settings : Settings)
    (now : Timestamp) (num_bytes : ℕ) where
  abbrev pub consequence_of :
      Job → List AttemptResult → QuorumOutcome → JobAttempt → Option Provider → Case → Action Case
  consequence_of job results outcome attempt none case = pure case
  consequence_of job results outcome attempt (some p) case =
      apply_outcome commitment settings now case.disputes job p attempt
        (any (λ q. q == attempt.provider_id) outcome.agreers && outcome.reached)
        (kind_eq job.kind JobKind.canary) results
      >>= (λ c. pure (absorb case c))

  -- The loop of `_finalize`.
  unfoldable pub apply_all :
      Job → List AttemptResult → QuorumOutcome → List JobAttempt → Case → Action Case
  apply_all job results outcome [] case = pure case
  apply_all job results outcome (a ∷ attempts) case =
      consequence_of job results outcome a (provider_of a.provider_id case.providers) case
      >>= apply_all job results outcome attempts

  -- The second half of `_finalize`.
  abbrev pub finish_with : Case → List JobAttempt → Decision → Action Case
  finish_with case attempts (illegal_transition from target) =
      raise (refused_transition from target)
  finish_with case attempts Decision.no_winner = raise stop_iteration
  finish_with case attempts Decision.unhashable = raise type_error
  finish_with case attempts (decided job winner) =
      let results = map attempt_result attempts in
      apply_all job results (quorum_outcome results job.redundancy) attempts case >>= (λ next.
        settle_job payment settings num_bytes job winner
        >>= (λ settled. pure (record next { job = settled })))

  -- `_finalize`
  unfoldable pub finalize : Case → Action Case
  finalize case =
      if is_terminal case.job.status
      then pure case
      else finish_with case (finished_of case.attempts)
          (decide_job now case.job (finished_of case.attempts))

  unfoldable pub maybe_finalize : Case → Action Case
  maybe_finalize case = if is_ready case.job case.attempts then finalize case else pure case

  abbrev pub start_run : Job → Transition
  start_run job =
      if status_eq job.status JobStatus.assigned
      then transition job JobStatus.running now
      else moved job

  abbrev pub record_in : Uuid → AgentResultRequest → Case → Transition → Action Case
  record_in p req case (illegal from target) = raise (refused_transition from target)
  record_in p req case (moved job) = maybe_finalize (record case {
    job = job;
    attempts = fill_in now req (verify job req).valid (attempt_for p case.attempts) case.attempts;
  })

  unfoldable pub record_result : Uuid → AgentResultRequest → Case → Action Case
  record_result p req case = record_in p req case (start_run case.job)

  -- `reap_expired_attempts` of api/app/assignment.py, on one job.
  unfoldable pub reap_attempts : Case → Action Case
  reap_attempts case =
      if is_redundant_active case.job && any (is_stale now) case.attempts
      then maybe_finalize (record case { attempts = map (give_up now) case.attempts })
      else pure case
