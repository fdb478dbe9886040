-- ===== src/Assignment/Leases.antt =====
-- What the lease reaper does to each job, described apart from its filter.
use mathlib.Core.Path.{subst}
use gridix_infra.Assignment.Numbers.{close}
use gridix_infra.StateMachine.{stamp}
use gridix_infra.Models.{JobStatus, AttemptOutcome, status_eq}
use gridix_infra.Config.{Settings}
use gridix_infra.Prelude.{
  sym, or_default, ==→eq, ◌∷◌, List, ◌≡◌, ℕ, All, none, some, Option, ◌⊎◌, ◌≤◌, ◌+◌, [], true,
  false, ◌||◌, arith, map, ltb, Bool-cases, inr, inl, refl, ◌==◌, leb, leb→le, leb→gt,
}
use gridix_infra.Models.Rows.{Timestamp, JobAttempt, Job, Uuid}
use gridix_infra.Assignment.Sweeps.{
  reap_expired_leases_reclaims, each_after, is_lapsed, requeued_ids,
}
use gridix_infra.Assignment.{Claim, max_number, reap_expired_leases, swept}

-- An unfinished job of one provider whose lease has run out.
pub record IsLapsed (now : Timestamp) (job : Job) : Type 0 where
  pub unfinished : (job.status ≡ JobStatus.assigned) ⊎ (job.status ≡ JobStatus.running)
  pub single : job.redundancy ≡ 1
  pub expired : (lease : Timestamp) × (job.lease_expires_at ≡ some lease) × (lease + 1 ≤ now)

abbrev pub IsLatest : List JobAttempt → JobAttempt → Type 0
IsLatest all a = All (λ x. x.attempt_number ≤ a.attempt_number) all

-- The latest of all attempts have got the outcome and a finish time, the others are as they were.
abbrev pub IsClosed : List JobAttempt → AttemptOutcome → List JobAttempt → List JobAttempt → Type 0
IsClosed all outcome [] [] = Unit
IsClosed all outcome [] (b ∷ bs) = ⊥
IsClosed all outcome (a ∷ attempts) [] = ⊥
IsClosed all outcome (a ∷ attempts) (b ∷ bs) =
    ((IsLatest all a
        × (b.attempt_number ≡ a.attempt_number)
        × (b.outcome ≡ outcome)
        × ((t : Timestamp) × (b.finished_at ≡ some t)))
      ⊎ ((¬ IsLatest all a) × (b ≡ a)))
    × IsClosed all outcome attempts bs

pub record IsRequeued (c d : Claim) : Type 0 where
  pub queued : d.job.status ≡ JobStatus.queued
  pub no_provider : d.job.assigned_provider_id ≡ none
  pub no_lease : d.job.lease_expires_at ≡ none
  pub closed : IsClosed c.attempts AttemptOutcome.reassigned c.attempts d.attempts

pub record IsFailed (now : Timestamp) (c d : Claim) : Type 0 where
  pub failed : d.job.status ≡ JobStatus.failed
  pub finished_at : d.job.finished_at ≡ some now
  pub no_lease : d.job.lease_expires_at ≡ none
  pub closed : IsClosed c.attempts AttemptOutcome.failed c.attempts d.attempts

-- Claims, the ids to requeue, and the claims afterwards.
pub data Reaped (settings : Settings) (now : Timestamp)
    : List Claim → List Uuid → List Claim → Type 0 where
  done : Reaped settings now [] [] []
  requeues :
      {c d : Claim} {cs ds : List Claim} {ids : List Uuid}
      → IsLapsed now c.job
      → c.job.attempt_count + 1 ≤ settings.max_attempts
      → IsRequeued c d
      → Reaped settings now cs ids ds
      → Reaped settings now (c ∷ cs) (c.job.id ∷ ids) (d ∷ ds)
  fails :
      {c d : Claim} {cs ds : List Claim} {ids : List Uuid}
      → IsLapsed now c.job
      → settings.max_attempts ≤ c.job.attempt_count
      → IsFailed now c d
      → Reaped settings now cs ids ds
      → Reaped settings now (c ∷ cs) ids (d ∷ ds)
  keeps :
      {c : Claim} {cs ds : List Claim} {ids : List Uuid}
      → ¬ IsLapsed now c.job
      → Reaped settings now cs ids ds
      → Reaped settings now (c ∷ cs) ids (c ∷ ds)

is_assigned-eq : (s : JobStatus) → status_eq s JobStatus.assigned ≡ true → s ≡ JobStatus.assigned
is_assigned-eq JobStatus.queued h = absurd (ground (arith, h))
is_assigned-eq JobStatus.assigned h = refl
is_assigned-eq JobStatus.running h = absurd (ground (arith, h))
is_assigned-eq JobStatus.completed h = absurd (ground (arith, h))
is_assigned-eq JobStatus.failed h = absurd (ground (arith, h))
is_assigned-eq JobStatus.timeout h = absurd (ground (arith, h))

is_running-eq : (s : JobStatus) → status_eq s JobStatus.running ≡ true → s ≡ JobStatus.running
is_running-eq JobStatus.queued h = absurd (ground (arith, h))
is_running-eq JobStatus.assigned h = absurd (ground (arith, h))
is_running-eq JobStatus.running h = refl
is_running-eq JobStatus.completed h = absurd (ground (arith, h))
is_running-eq JobStatus.failed h = absurd (ground (arith, h))
is_running-eq JobStatus.timeout h = absurd (ground (arith, h))

expired-since :
    (now : Timestamp) (expiry : Option Timestamp)
    → elim expiry [ none ↦ false | some lease ↦ ltb lease now ] ≡ true
    → (lease : Timestamp) × (expiry ≡ some lease) × (lease + 1 ≤ now)
expired-since now none h = absurd (ground (arith, h))
expired-since now (some lease) h = (lease, refl, ground (arith, h))

stale-IsLapsed : (now : Timestamp) (job : Job) → is_lapsed now job ≡ true → IsLapsed now job
stale-IsLapsed now job h = record {
  unfinished = elim (Bool-cases (status_eq job.status JobStatus.assigned)) [
    | inl e ↦ inl (is_assigned-eq job.status e)
    | inr e ↦ inr (is_running-eq job.status (ground (arith, h, e)))
  ];
  single = ground (arith, h);
  expired = expired-since now job.lease_expires_at (ground (arith, h));
}

active-is :
    (s : JobStatus)
    → (s ≡ JobStatus.assigned) ⊎ (s ≡ JobStatus.running)
    → (status_eq s JobStatus.assigned || status_eq s JobStatus.running) ≡ true
active-is s (inl e) = rw e refl
active-is s (inr e) = rw e refl

IsLapsed-stale : (now : Timestamp) (job : Job) → IsLapsed now job → is_lapsed now job ≡ true
IsLapsed-stale now job h =
    let (lease, is_lease, past) = h.expired in
    rw (active-is job.status h.unfinished, h.single, is_lease) (ground (arith, past))

max_number-below :
    (n : ℕ) (attempts : List JobAttempt)
    → max_number attempts ≤ n
    → All (λ x. x.attempt_number ≤ n) attempts
max_number-below n [] h = tt
max_number-below n (a ∷ attempts) h =
    (ground (arith, h), max_number-below n attempts (ground (arith, h)))

max_number-bound :
    (attempts : List JobAttempt) → All (λ x. x.attempt_number ≤ max_number attempts) attempts
max_number-bound attempts = max_number-below (max_number attempts) attempts (omega arith)

latest-max :
    (a : JobAttempt) (attempts : List JobAttempt)
    → IsLatest attempts a
    → max_number attempts ≤ a.attempt_number
latest-max a [] h = omega arith
latest-max a (x ∷ attempts) (h, hs) = ground (arith, h, latest-max a attempts hs)

close-IsClosed :
    (now : Timestamp) (outcome : AttemptOutcome) (all attempts : List JobAttempt)
    → All (λ x. x.attempt_number ≤ max_number all) attempts
    → IsClosed all outcome attempts (map (close now outcome (max_number all)) attempts)
close-IsClosed now outcome all [] hs = tt
close-IsClosed now outcome all (a ∷ attempts) (h, hs) = (
  elim (Bool-cases (a.attempt_number == max_number all)) [
    | inl e ↦ rw e (
        inl (
          subst (λ n. All (λ x. x.attempt_number ≤ n) all) (sym (==→eq _ _ e))
              (max_number-bound all),
          refl,
          refl,
          (or_default a.finished_at now, refl),
        ))
    | inr e ↦ rw e (inr (λ latest. ground (arith, e, h, latest-max a all latest), refl))
  ],
  close-IsClosed now outcome all attempts hs,
)

module _ (settings : Settings) (now : Timestamp) where
  each_after-Reaped :
      (claims : List Claim)
      → Reaped settings now claims
          (requeued_ids settings now (is_lapsed now) claims)
          (each_after settings now (is_lapsed now) claims)
  unfolding stamp
  each_after-Reaped [] = done
  each_after-Reaped (c ∷ claims) = elim (Bool-cases (is_lapsed now c.job)) [
    | inl old ↦ elim (Bool-cases (leb settings.max_attempts c.job.attempt_count)) [
      | inl spent ↦
          rw (old, spent)
            (fails (stale-IsLapsed now c.job old) (leb→le _ _ spent)
              (record {
                failed = refl;
                finished_at = refl;
                no_lease = refl;
                closed =
                    close-IsClosed now AttemptOutcome.failed c.attempts c.attempts
                      (max_number-bound c.attempts);
              })
              (each_after-Reaped claims))
      | inr left ↦
          rw (old, left)
            (requeues (stale-IsLapsed now c.job old) (ground (arith, leb→gt _ _ left))
              (record {
                queued = refl;
                no_provider = refl;
                no_lease = refl;
                closed =
                    close-IsClosed now AttemptOutcome.reassigned c.attempts c.attempts
                      (max_number-bound c.attempts);
              })
              (each_after-Reaped claims))
    ]
    | inr fresh ↦
        rw fresh (
          keeps (λ h. ground (arith, fresh, IsLapsed-stale now c.job h)) (each_after-Reaped claims))
  ]

  none-IsLapsed :
      (claims : List Claim)
      → All (λ c. is_lapsed now c.job ≡ false) claims
      → All (λ c. ¬ IsLapsed now c.job) claims
  none-IsLapsed [] hs = tt
  none-IsLapsed (c ∷ claims) (h, hs) =
      (λ lapsed. ground (arith, h, IsLapsed-stale now c.job lapsed), none-IsLapsed claims hs)

  -- The lease reaper always returns, and no illegal transition stops it. An assigned or running job
  -- with redundancy 1 whose lease has run out fails where its attempts are spent, and goes back to
  -- the queue without provider and lease where not, in which case its id is returned, in order; its
  -- latest attempt is closed with that outcome, the others stay. Every other job stays as it is.
  -- Afterwards no unfinished job with redundancy 1 has a lease that has run out.
  pub reap_expired_leases-Reaped :
      (claims : List Claim)
      → (ids : List Uuid) × (left : List Claim) × (reap_expired_leases settings now claims
          ≡ swept ids left)
        × Reaped settings now claims ids left
        × All (λ c. ¬ IsLapsed now c.job) left
  reap_expired_leases-Reaped claims =
      let (same, fresh) = reap_expired_leases_reclaims settings now claims in
      (
        requeued_ids settings now (is_lapsed now) claims,
        each_after settings now (is_lapsed now) claims,
        same,
        each_after-Reaped claims,
        none-IsLapsed (each_after settings now (is_lapsed now) claims) fresh,
      )
