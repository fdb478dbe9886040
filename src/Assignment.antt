-- ===== src/Assignment.antt =====
-- api/app/assignment.py: assignment rounds and the reapers that reclaim jobs. The matcher's
-- candidates, the clock and the set of unreachable providers are arguments. The row lock makes each
-- call one step on a job and its attempts. An attempt has no id here: the table has at most one of
-- each number for a job.
pub mod Numbers
pub mod Budget
pub mod Rounds
pub mod Sweeps
pub mod Leases
mod Tests
use gridix_infra.Prelude.{
  ℕ, Bool, true, false, not, ◌&&◌, ◌||◌, ◌==◌, ◌+◌, Option, none, some, List, [], ◌∷◌, ◌++◌, map,
  take, filter, any, if◌then◌else◌, ltb, leb, or_default,
}
use gridix_infra.Models.{JobStatus, AttemptOutcome, status_eq}
use gridix_infra.Models.Rows.{Job, JobAttempt, Provider, Timestamp, Uuid}
use gridix_infra.Config.{Settings}
use gridix_infra.StateMachine.{Transition, moved, illegal, transition}

-- A job and the attempts that have its id.
pub record Claim : Type 0 where
  pub job : Job
  pub attempts : List JobAttempt

-- What a call returns and leaves, or the illegal transition that it raises.
pub data Outcome (A : Type 0) : Type 0 where
  finished : A → Claim → Outcome A
  raised : JobStatus → JobStatus → Outcome A

-- `coalesce(max(attempt_number), 0)`
abbrev pub max_number : List JobAttempt → ℕ
max_number [] = 0
max_number (a ∷ attempts) =
    let rest = max_number attempts in if ltb rest a.attempt_number then a.attempt_number else rest

abbrev pub new_attempts : Uuid → ℕ → Timestamp → List Provider → List JobAttempt
new_attempts job_id base lease [] = []
new_attempts job_id base lease (p ∷ ps) =
    record {
      job_id = job_id;
      provider_id = p.id;
      attempt_number = base + 1;
      outcome = AttemptOutcome.assigned;
      lease_expires_at = some lease;
      result_ref = none;
      proof = none;
      finished_at = none;
    }
    ∷ new_attempts job_id (base + 1) lease ps

-- `want`
abbrev pub wanted : Job → ℕ
wanted job = if job.is_high_value then job.redundancy else 1

abbrev pub start_round :
    Settings
    → Timestamp
    → Provider
    → List Provider
    → List JobAttempt
    → Transition
    → Outcome (List Provider)
start_round settings now p ps attempts (illegal from target) = raised from target
start_round settings now p ps attempts (moved job) =
    let lease = now + settings.lease_seconds in
    finished (p ∷ ps) (record {
      job = record job {
        assigned_provider_id = some p.id;
        lease_expires_at = some lease;
        attempt_count = job.attempt_count + 1;
      };
      attempts = attempts ++ new_attempts job.id (max_number attempts) lease (p ∷ ps);
    })

abbrev pub assign_to : Settings → Timestamp → Claim → List Provider → Outcome (List Provider)
assign_to settings now c [] = finished [] c
assign_to settings now c (p ∷ ps) =
    start_round settings now p ps c.attempts (transition c.job JobStatus.assigned now)

unfoldable pub assign_providers :
    Settings → Timestamp → List Provider → Claim → Outcome (List Provider)
assign_providers settings now candidates c =
    if not (status_eq c.job.status JobStatus.queued)
    then finished [] c
    else assign_to settings now c (take (wanted c.job) candidates)

-- The latest attempt gets the outcome, and a finish time where it has none.
abbrev pub close_latest : Timestamp → AttemptOutcome → List JobAttempt → List JobAttempt
close_latest now outcome attempts =
    map
      (λ a.
        if a.attempt_number == max_number attempts
        then record a { outcome = outcome; finished_at = some (or_default a.finished_at now) }
        else a)
      attempts

abbrev pub reclaimed : Option Uuid → List JobAttempt → Transition → Outcome (Option Uuid)
reclaimed id attempts (illegal from target) = raised from target
reclaimed id attempts (moved job) = finished id (record { job = job; attempts = attempts })

-- `_reclaim_job`
unfoldable pub reclaim_job : Settings → Timestamp → Claim → Outcome (Option Uuid)
reclaim_job settings now c =
    if leb settings.max_attempts c.job.attempt_count
    then reclaimed none (close_latest now AttemptOutcome.failed c.attempts)
        (transition c.job JobStatus.failed now)
    else reclaimed (some c.job.id) (close_latest now AttemptOutcome.reassigned c.attempts)
        (transition c.job JobStatus.queued now)

-- `status in (assigned, running) and redundancy == 1`
abbrev pub is_single_active : Job → Bool
is_single_active job =
    (status_eq job.status JobStatus.assigned || status_eq job.status JobStatus.running)
    && job.redundancy == 1

abbrev pub lease_expired : Timestamp → Job → Bool
lease_expired now job = elim job.lease_expires_at [ none ↦ false | some lease ↦ ltb lease now ]

abbrev pub assigned_to : List Uuid → Job → Bool
assigned_to providers job = elim job.assigned_provider_id [
  | none ↦ false
  | some p ↦ any (λ q. q == p) providers
]

-- The ids to requeue and the rows after a sweep, or the transition that stopped it.
pub data Sweep : Type 0 where
  swept : List Uuid → List Claim → Sweep
  stopped : JobStatus → JobStatus → Sweep

abbrev pub swept_one : Outcome (Option Uuid) → Sweep → Sweep
swept_one (raised from target) rest = stopped from target
swept_one (finished id c) (stopped from target) = stopped from target
swept_one (finished none c) (swept ids claims) = swept ids (c ∷ claims)
swept_one (finished (some id) c) (swept ids claims) = swept (id ∷ ids) (c ∷ claims)

-- The reclaim of every job that passes the test.
unfoldable pub sweep : Settings → Timestamp → (Job → Bool) → List Claim → Sweep
sweep settings now stale [] = swept [] []
sweep settings now stale (c ∷ claims) =
    let rest = sweep settings now stale claims in
    if stale c.job
    then swept_one (reclaim_job settings now c) rest
    else swept_one (finished none c) rest

unfoldable pub reap_expired_leases : Settings → Timestamp → List Claim → Sweep
reap_expired_leases settings now claims =
    sweep settings now (λ job. is_single_active job && lease_expired now job) claims

-- The providers that were seen, but not since the cutoff.
abbrev pub unreachable : Settings → Timestamp → List Provider → List Uuid
unreachable settings now providers =
    map (λ p. p.id)
      (filter
        (λ p. elim p.last_seen [
          | none ↦ false
          | some seen ↦ ltb (seen + settings.connection_timeout_seconds) now
        ])
        providers)

unfoldable pub drain_unreachable_providers :
    Settings → Timestamp → List Provider → List Claim → Sweep
drain_unreachable_providers settings now providers claims =
    sweep settings now
      (λ job. is_single_active job && assigned_to (unreachable settings now providers) job) claims

-- The ids of at most `limit` queued jobs.
abbrev pub recover_queued_jobs : ℕ → List Claim → List Uuid
recover_queued_jobs limit claims =
    take limit (map (λ c. c.job.id) (filter (λ c. status_eq c.job.status JobStatus.queued) claims))
