-- ===== src/Assignment/Sweeps.antt =====
-- What the reapers do: every stale job is reclaimed, and no transition stops a sweep.
use gridix_infra.StateMachine.Lifecycle.{transition-legal}
use gridix_infra.Prelude.{
  Bool, true, false, ◌&&◌, ◌||◌, List, [], ◌∷◌, map, All, Option, none, some, ◌≡◌, refl, arith,
  Bool-cases, inl, inr, if◌then◌else◌, leb,
}
use gridix_infra.Models.{JobStatus, AttemptOutcome, status_eq}
use gridix_infra.Models.Rows.{Job, Provider, Timestamp, Uuid}
use gridix_infra.Config.{Settings}
use gridix_infra.StateMachine.{stamp, can_transition}
use gridix_infra.Assignment.{
  Claim, finished, close_latest, reclaim_job, is_single_active, lease_expired, assigned_to,
  unreachable, swept, swept_one, sweep, reap_expired_leases, drain_unreachable_providers,
}

abbrev is_active : JobStatus → Bool
is_active st = status_eq st JobStatus.assigned || status_eq st JobStatus.running

active-may_end :
    (st : JobStatus)
    → is_active st ≡ true
    → (can_transition st JobStatus.failed ≡ true) × (can_transition st JobStatus.queued ≡ true)
unfolding can_transition
active-may_end JobStatus.assigned h = (refl, refl)
active-may_end JobStatus.running h = (refl, refl)
active-may_end JobStatus.queued h = absurd (ground (arith, h))
active-may_end JobStatus.completed h = absurd (ground (arith, h))
active-may_end JobStatus.failed h = absurd (ground (arith, h))
active-may_end JobStatus.timeout h = absurd (ground (arith, h))

swept_one-swept :
    (b : Bool) (id : Uuid) (c : Claim) (ids : List Uuid) (claims : List Claim)
    → swept_one (finished (if b then none else some id) c) (swept ids claims)
      ≡ swept (if b then ids else id ∷ ids) (c ∷ claims)
swept_one-swept true id c ids claims = refl
swept_one-swept false id c ids claims = refl

module _ (settings : Settings) (now : Timestamp) where
  abbrev is_spent : Job → Bool
  is_spent job = leb settings.max_attempts job.attempt_count

  -- A reclaimed job: back in the queue, or failed where its attempts are spent.
  abbrev pub after : Claim → Claim
  after c =
      if is_spent c.job
      then record {
        job = stamp JobStatus.failed now (record c.job { status = JobStatus.failed });
        attempts = close_latest now AttemptOutcome.failed c.attempts;
      }
      else record {
        job = stamp JobStatus.queued now (record c.job { status = JobStatus.queued });
        attempts = close_latest now AttemptOutcome.reassigned c.attempts;
      }

  abbrev pub requeued : Job → Option Uuid
  requeued job = if is_spent job then none else some job.id

  reclaim_job-after :
      (c : Claim)
      → is_active c.job.status ≡ true
      → reclaim_job settings now c ≡ finished (requeued c.job) (after c)
  unfolding reclaim_job
  reclaim_job-after c h =
      let may = active-may_end c.job.status h in
      ground (
        arith,
        transition-legal c.job JobStatus.failed now may.0,
        transition-legal c.job JobStatus.queued now may.1,
      )

  after-idle : (c : Claim) → is_active (after c).job.status ≡ false
  unfolding stamp
  after-idle c = elim (Bool-cases (is_spent c.job)) [ inl e ↦ rw e refl | inr e ↦ rw e refl ]

  module _ (stale : Job → Bool) where
    -- The ids of the stale jobs that have attempts left, in order.
    abbrev pub requeued_ids : List Claim → List Uuid
    requeued_ids [] = []
    requeued_ids (c ∷ claims) =
        let rest = requeued_ids claims in
        if stale c.job then (if is_spent c.job then rest else c.job.id ∷ rest) else rest

    abbrev pub each_after : List Claim → List Claim
    each_after claims = map (λ c. if stale c.job then after c else c) claims

    sweep-after :
        (claims : List Claim)
        → ((job : Job) → stale job ≡ true → is_active job.status ≡ true)
        → sweep settings now stale claims ≡ swept (requeued_ids claims) (each_after claims)
    unfolding sweep
    sweep-after [] active = refl
    sweep-after (c ∷ claims) active = elim (Bool-cases (stale c.job)) [
      | inl old ↦
          rw (old, reclaim_job-after c (active c.job old), sweep-after claims active)
            (swept_one-swept (is_spent c.job) c.job.id (after c) (requeued_ids claims)
              (each_after claims))
      | inr fresh ↦ rw (fresh, sweep-after claims active) refl
    ]

    each_after-fresh :
        (claims : List Claim)
        → ((job : Job) → stale job ≡ true → is_active job.status ≡ true)
        → All (λ c. stale c.job ≡ false) (each_after claims)
    each_after-fresh [] active = tt
    each_after-fresh (c ∷ claims) active = (one, each_after-fresh claims active)
      where
        one : stale (if stale c.job then after c else c).job ≡ false
        one = elim (Bool-cases (stale c.job)) [
          | inl old ↦ rw old (elim (Bool-cases (stale (after c).job)) [
            | inl again ↦ absurd (ground (arith, active (after c).job again, after-idle c))
            | inr fresh ↦ fresh
          ])
          | inr fresh ↦ rw fresh fresh
        ]

abbrev pub is_lapsed : Timestamp → Job → Bool
is_lapsed now job = is_single_active job && lease_expired now job

abbrev pub is_stranded : Settings → Timestamp → List Provider → Job → Bool
is_stranded settings now providers job =
    is_single_active job && assigned_to (unreachable settings now providers) job

lapsed-active :
    (now : Timestamp) (job : Job) → is_lapsed now job ≡ true → is_active job.status ≡ true
lapsed-active now job h = ground (arith, h)

stranded-active :
    (settings : Settings) (now : Timestamp) (providers : List Provider) (job : Job)
    → is_stranded settings now providers job ≡ true
    → is_active job.status ≡ true
stranded-active settings now providers job h = ground (arith, h)

-- What the lease reaper leaves, by the tests of its query.
pub reap_expired_leases_reclaims :
    (settings : Settings) (now : Timestamp) (claims : List Claim)
    → let left = each_after settings now (is_lapsed now) claims in
      (reap_expired_leases settings now claims
        ≡ swept (requeued_ids settings now (is_lapsed now) claims) left)
      × All (λ c. is_lapsed now c.job ≡ false) left
unfolding reap_expired_leases
reap_expired_leases_reclaims settings now claims = (
  sweep-after settings now (is_lapsed now) claims (lapsed-active now),
  each_after-fresh settings now (is_lapsed now) claims (lapsed-active now),
)

-- Draining always returns: of the jobs with one provider and an active status whose provider was
-- seen but not within the connection timeout, it fails those whose attempts are spent and requeues
-- the others, whose ids it returns in order, it closes each one's latest attempt, and it leaves
-- every other job as it is. Afterwards no such job is left.
pub drain_unreachable_providers_reclaims :
    (settings : Settings) (now : Timestamp) (providers : List Provider) (claims : List Claim)
    → let stale = is_stranded settings now providers in
      let left = each_after settings now stale claims in
      (drain_unreachable_providers settings now providers claims
        ≡ swept (requeued_ids settings now stale claims) left)
      × All (λ c. stale c.job ≡ false) left
unfolding drain_unreachable_providers
drain_unreachable_providers_reclaims settings now providers claims =
    let stale = is_stranded settings now providers in
    (
      sweep-after settings now stale claims (stranded-active settings now providers),
      each_after-fresh settings now stale claims (stranded-active settings now providers),
    )
