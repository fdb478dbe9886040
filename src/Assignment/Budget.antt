-- ===== src/Assignment/Budget.antt =====
-- The retry budget and the attempt numbers of a job, whatever is called on it.
use gridix_infra.Assignment.Numbers.{Ascending, close-Ascending, append-Ascending}
use mathlib.Core.Path.{subst}
use gridix_infra.Prelude.{
  ℕ, false, List, [], ◌∷◌, ◌+◌, ◌≤◌, ◌≡◌, refl, sym, arith, Bool-cases, inl, inr, if◌then◌else◌,
  Option, some, ap, leb, none, take, ◌∙◌, not, leb→gt,
}
use gridix_infra.Models.{JobStatus, AttemptOutcome, status_eq}
use gridix_infra.Models.Rows.{Job, JobAttempt, Provider, Timestamp, Uuid}
use gridix_infra.Config.{Settings}
use gridix_infra.StateMachine.{moved, transition, stamp, Transition}
use gridix_infra.StateMachine.Lifecycle.{transition-moved, stamp-status}
use gridix_infra.Assignment.{
  raised, Claim, finished, max_number, assign_providers, reclaim_job, Outcome, reclaimed,
  start_round, illegal, assign_to, close_latest, wanted,
}

-- The rounds that a job has had, and the one that it waits for.
abbrev pub rounds : Job → ℕ
rounds job = job.attempt_count + (if status_eq job.status JobStatus.queued then 1 else 0)

-- The rounds stay within the budget, and the attempts have rising numbers.
pub record IsWithinBudget (settings : Settings) (c : Claim) : Type 0 where
  pub in_budget : rounds c.job ≤ settings.max_attempts
  pub numbered : Ascending 0 c.attempts

-- The calls that change a job after it was submitted.
pub data Step (settings : Settings) (c d : Claim) : Type 0 where
  assigns :
      (now : Timestamp) (candidates ps : List Provider)
      → assign_providers settings now candidates c ≡ finished ps d
      → Step settings c d
  reclaims :
      (now : Timestamp) (id : Option Uuid)
      → reclaim_job settings now c ≡ finished id d
      → Step settings c d
  moves :
      (target : JobStatus) (now : Timestamp) (job : Job)
      → status_eq target JobStatus.queued ≡ false
      → transition c.job target now ≡ moved job
      → d ≡ record c { job = job }
      → Step settings c d

pub data Reach (settings : Settings) (c : Claim) : Claim → Type 0 where
  here : Reach settings c c
  next : {d e : Claim} → Reach settings c d → Step settings d e → Reach settings c e

pub stamp-attempt_count :
    (target : JobStatus) (now : Timestamp) (job : Job)
    → (stamp target now job).attempt_count ≡ job.attempt_count
unfolding stamp
stamp-attempt_count JobStatus.queued now job = refl
stamp-attempt_count JobStatus.assigned now job = refl
stamp-attempt_count JobStatus.running now job = refl
stamp-attempt_count _ now job = refl

-- A move counts no round.
transition-rounds :
    (job k : Job) (target : JobStatus) (now : Timestamp)
    → transition job target now ≡ moved k
    → rounds k ≡ job.attempt_count + (if status_eq target JobStatus.queued then 1 else 0)
transition-rounds job k target now h = rw ((transition-moved job target now h).1) (
    rw
      (
        stamp-attempt_count target now (record job { status = target }),
        stamp-status target now (record job { status = target }),
      )
      refl)

module _ {A : Type 0} where
  abbrev claim_of : Claim → Outcome A → Claim
  claim_of c (finished x d) = d
  claim_of c (raised from target) = c

  pub finished-eq : (x y : A) (c d : Claim) → finished x c ≡ finished y d → c ≡ d
  finished-eq x y c d e = ap (claim_of c) e

-- What a reclaim that returns has done.
pub reclaimed-claim :
    (id x : Option Uuid) (attempts : List JobAttempt) (t : Transition) (d : Claim)
    → reclaimed id attempts t ≡ finished x d
    → (job : Job) × (t ≡ moved job) × (d ≡ record { job = job; attempts = attempts })
reclaimed-claim id x attempts (illegal from target) d e = absurd (ground (arith, e))
reclaimed-claim id x attempts (moved job) d e =
    (job, refl, sym (finished-eq id x (record { job = job; attempts = attempts }) d e))

module _ (settings : Settings) where
  -- Replacing the job by one with rounds in the budget.
  replaced :
      (attempts : List JobAttempt) (job : Job) (d : Claim)
      → rounds job ≤ settings.max_attempts
      → Ascending 0 attempts
      → d ≡ record { job = job; attempts = attempts }
      → IsWithinBudget settings d
  replaced attempts job d le up e =
      subst (IsWithinBudget settings) (sym e) (record { in_budget = le; numbered = up })

  reclaim-IsWithinBudget :
      (now : Timestamp) (id : Option Uuid) (c d : Claim)
      → reclaim_job settings now c ≡ finished id d
      → IsWithinBudget settings c
      → IsWithinBudget settings d
  unfolding reclaim_job
  reclaim-IsWithinBudget now id c d e h =
      let failing =
        reclaimed none (close_latest now AttemptOutcome.failed c.attempts)
          (transition c.job JobStatus.failed now) in
      let requeueing =
        reclaimed (some c.job.id) (close_latest now AttemptOutcome.reassigned c.attempts)
          (transition c.job JobStatus.queued now) in
      elim (Bool-cases (leb settings.max_attempts c.job.attempt_count)) [
        | inl spent ↦
            let (job, went, is_d) =
              reclaimed-claim none id _ _ d
                (sym (ap (λ b. if b then failing else requeueing) spent) ∙ e) in
            replaced _ job d
              (omega (arith, transition-rounds c.job job JobStatus.failed now went, h.in_budget))
              (close-Ascending now AttemptOutcome.failed (max_number c.attempts) 0 c.attempts
                h.numbered)
              is_d
        | inr left ↦
            let (job, went, is_d) =
              reclaimed-claim (some c.job.id) id _ _ d
                (sym (ap (λ b. if b then failing else requeueing) left) ∙ e) in
            replaced _ job d
              (omega
                (arith, transition-rounds c.job job JobStatus.queued now went, leb→gt _ _ left))
              (close-Ascending now AttemptOutcome.reassigned (max_number c.attempts) 0 c.attempts
                h.numbered)
              is_d
      ]

  round-IsWithinBudget :
      (now : Timestamp) (p : Provider) (ps qs : List Provider) (c d : Claim) (t : Transition)
      → transition c.job JobStatus.assigned now ≡ t
      → start_round settings now p ps c.attempts t ≡ finished qs d
      → c.job.attempt_count + 1 ≤ settings.max_attempts
      → IsWithinBudget settings c
      → IsWithinBudget settings d
  round-IsWithinBudget now p ps qs c d (illegal from target) et e le h = absurd (ground (arith, e))
  round-IsWithinBudget now p ps qs c d (moved job) et e le h =
      subst (IsWithinBudget settings) (finished-eq (p ∷ ps) qs _ d e) (record {
        in_budget = omega (arith, transition-rounds c.job job JobStatus.assigned now et, le);
        numbered =
            append-Ascending 0 (max_number c.attempts) job.id (now + settings.lease_seconds)
              (p ∷ ps) c.attempts (omega arith) (omega arith) h.numbered;
      })

  assigned-IsWithinBudget :
      (now : Timestamp) (ps qs : List Provider) (c d : Claim)
      → assign_to settings now c ps ≡ finished qs d
      → c.job.attempt_count + 1 ≤ settings.max_attempts
      → IsWithinBudget settings c
      → IsWithinBudget settings d
  assigned-IsWithinBudget now [] qs c d e le h =
      subst (IsWithinBudget settings) (finished-eq [] qs c d e) h
  assigned-IsWithinBudget now (p ∷ ps) qs c d e le h =
      round-IsWithinBudget now p ps qs c d (transition c.job JobStatus.assigned now) refl e le h

  assign-IsWithinBudget :
      (now : Timestamp) (candidates ps : List Provider) (c d : Claim)
      → assign_providers settings now candidates c ≡ finished ps d
      → IsWithinBudget settings c
      → IsWithinBudget settings d
  unfolding assign_providers
  assign-IsWithinBudget now candidates ps c d e h =
      elim (Bool-cases (status_eq c.job.status JobStatus.queued)) [
        | inl waiting ↦
            assigned-IsWithinBudget now (take (wanted c.job) candidates) ps c d
              (sym (
                  ap
                    (λ b.
                      if not b
                      then finished [] c
                      else assign_to settings now c (take (wanted c.job) candidates))
                    waiting)
                ∙ e)
              (subst (λ b. c.job.attempt_count + (if b then 1 else 0) ≤ settings.max_attempts)
                waiting h.in_budget)
              h
        | inr busy ↦
            subst (IsWithinBudget settings)
              (finished-eq [] ps c d (
                sym (
                  ap
                    (λ b.
                      if not b
                      then finished [] c
                      else assign_to settings now c (take (wanted c.job) candidates))
                    busy)
                ∙ e))
              h
      ]

  Step-IsWithinBudget :
      {c d : Claim} → Step settings c d → IsWithinBudget settings c → IsWithinBudget settings d
  Step-IsWithinBudget {c} {d} (assigns now candidates ps e) h =
      assign-IsWithinBudget now candidates ps c d e h
  Step-IsWithinBudget {c} {d} (reclaims now id e) h = reclaim-IsWithinBudget now id c d e h
  Step-IsWithinBudget {c} {d} (moves target now job other e is_d) h =
      replaced c.attempts job d
        (omega (
          arith,
          subst (λ b. rounds job ≡ c.job.attempt_count + (if b then 1 else 0)) other
              (transition-rounds c.job job target now e),
          h.in_budget,
        ))
        h.numbered is_d

  -- However a job is assigned, reclaimed and moved on otherwise, in any order: it never has more
  -- rounds than `max_attempts`, one that waits in the queue counted with the round it waits for, and
  -- its attempts have distinct, rising numbers.
  pub Reach-IsWithinBudget :
      {c d : Claim} → Reach settings c d → IsWithinBudget settings c → IsWithinBudget settings d
  Reach-IsWithinBudget here h = h
  Reach-IsWithinBudget (next r step) h = Step-IsWithinBudget step (Reach-IsWithinBudget r h)
