-- ===== src/Assignment/Rounds.antt =====
-- The rounds of assignment that a job gets, counted call by call, against the retry budget.
use gridix_infra.Models.{JobStatus, status_eq}
use gridix_infra.Models.Rows.{Job, Provider, Timestamp, Uuid}
use gridix_infra.Config.{Settings}
use gridix_infra.Assignment.Budget.{
  Reach, here, next, assigns, reclaims, moves, IsWithinBudget, Reach-IsWithinBudget,
  reclaimed-claim, finished-eq, stamp-attempt_count,
}
use gridix_infra.Assignment.Numbers.{Ascending}
use mathlib.Core.Path.{subst}
use gridix_infra.StateMachine.{moved, illegal, transition, Transition}
use gridix_infra.StateMachine.Lifecycle.{transition-moved}
use gridix_infra.Assignment.{
  Claim, Outcome, finished, raised, start_round, assign_to, assign_providers, reclaim_job, wanted,
}
use gridix_infra.Prelude.{
  ◌∷◌, ◌∙◌, List, ◌≡◌, ℕ, ap, ◌+◌, ◌≤◌, [], Option, arith, Bool-cases, if◌then◌else◌, refl, leb,
  inr, inl, none, take, some,
}

-- Whether a call that got these providers began a round.
abbrev pub begun : List Provider → ℕ
begun [] = 0
begun (p ∷ ps) = 1

-- The rounds that a sequence of calls began: the calls that gave the job to anyone.
unfoldable pub rounds_begun : {settings : Settings} {c d : Claim} → Reach settings c d → ℕ
rounds_begun here = 0
rounds_begun (next r (assigns now candidates ps e)) = rounds_begun r + begun ps
rounds_begun (next r (reclaims now id e)) = rounds_begun r
rounds_begun (next r (moves target now job other e is_d)) = rounds_begun r

transition-attempt_count :
    (job k : Job) (target : JobStatus) (now : Timestamp)
    → transition job target now ≡ moved k
    → k.attempt_count ≡ job.attempt_count
transition-attempt_count job k target now h =
    rw ((transition-moved job target now h).1)
      (stamp-attempt_count target now (record job { status = target }))

module _ {A : Type 0} where
  result_of : A → Outcome A → A
  result_of x (finished y c) = y
  result_of x (raised from target) = x

  finished-result : (x y : A) (c d : Claim) → finished x c ≡ finished y d → x ≡ y
  unfolding result_of
  finished-result x y c d e = ap (result_of x) e

none_begun :
    (qs : List Provider) (c d : Claim)
    → finished [] c ≡ finished qs d
    → d.job.attempt_count ≡ c.job.attempt_count + begun qs
none_begun qs c d e =
    subst (λ x. d.job.attempt_count ≡ c.job.attempt_count + begun x) (finished-result [] qs c d e)
      (subst (λ x. x.job.attempt_count ≡ c.job.attempt_count + 0) (finished-eq [] qs c d e)
        (omega arith))

module _ (settings : Settings) where
  reclaim-attempt_count :
      (now : Timestamp) (id : Option Uuid) (c d : Claim)
      → reclaim_job settings now c ≡ finished id d
      → d.job.attempt_count ≡ c.job.attempt_count
  unfolding reclaim_job
  reclaim-attempt_count now id c d e =
      elim (Bool-cases (leb settings.max_attempts c.job.attempt_count)) [
        | inl spent ↦
            let (job, went, is_d) = reclaimed-claim none id _ _ d (rw (reclaim_job, spent) at e) in
            ap (λ x. x.job.attempt_count) is_d
            ∙ transition-attempt_count c.job job JobStatus.failed now went
        | inr left ↦
            let (job, went, is_d) =
              reclaimed-claim (some c.job.id) id _ _ d (rw (reclaim_job, left) at e) in
            ap (λ x. x.job.attempt_count) is_d
            ∙ transition-attempt_count c.job job JobStatus.queued now went
      ]

  round-attempt_count :
      (now : Timestamp) (p : Provider) (ps qs : List Provider) (c d : Claim) (t : Transition)
      → transition c.job JobStatus.assigned now ≡ t
      → start_round settings now p ps c.attempts t ≡ finished qs d
      → d.job.attempt_count ≡ c.job.attempt_count + begun qs
  round-attempt_count now p ps qs c d (illegal from target) et e = absurd (ground (arith, e))
  round-attempt_count now p ps qs c d (moved job) et e =
      let same = finished-eq (p ∷ ps) qs _ d e in
      let who = finished-result (p ∷ ps) qs _ d e in
      subst (λ x. d.job.attempt_count ≡ c.job.attempt_count + begun x) who
        (subst (λ x. x.job.attempt_count ≡ c.job.attempt_count + 1) same
          (ap (λ n. n + 1) (transition-attempt_count c.job job JobStatus.assigned now et)))

  to-attempt_count :
      (now : Timestamp) (ps qs : List Provider) (c d : Claim)
      → assign_to settings now c ps ≡ finished qs d
      → d.job.attempt_count ≡ c.job.attempt_count + begun qs
  to-attempt_count now [] qs c d e = none_begun qs c d e
  to-attempt_count now (p ∷ ps) qs c d e =
      round-attempt_count now p ps qs c d (transition c.job JobStatus.assigned now) refl e

  assign-attempt_count :
      (now : Timestamp) (candidates ps : List Provider) (c d : Claim)
      → assign_providers settings now candidates c ≡ finished ps d
      → d.job.attempt_count ≡ c.job.attempt_count + begun ps
  unfolding assign_providers
  assign-attempt_count now candidates ps c d e =
      elim (Bool-cases (status_eq c.job.status JobStatus.queued)) [
        | inl waiting ↦
            to-attempt_count now (take (wanted c.job) candidates) ps c d
              (rw (assign_providers, waiting) at e)
        | inr busy ↦ none_begun ps c d (rw (assign_providers, busy) at e)
      ]

  -- The column `attempt_count` counts the rounds.
  Reach-attempt_count :
      {c d : Claim} (r : Reach settings c d)
      → d.job.attempt_count ≡ c.job.attempt_count + rounds_begun r
  unfolding rounds_begun
  Reach-attempt_count here = omega arith
  Reach-attempt_count (next {d} {e} r (assigns now candidates ps h)) =
      omega (arith, assign-attempt_count now candidates ps d e h, Reach-attempt_count r)
  Reach-attempt_count (next {d} {e} r (reclaims now id h)) =
      omega (arith, reclaim-attempt_count now id d e h, Reach-attempt_count r)
  Reach-attempt_count (next {d} {e} r (moves target now job other h is_e)) = omega (
    arith,
    ap (λ x. x.job.attempt_count) is_e,
    transition-attempt_count d.job job target now h,
    Reach-attempt_count r,
  )

  -- However a submitted job is assigned, reclaimed and moved on otherwise, in any order: the calls
  -- that gave it to a provider, and the round it waits for while it is queued, are together never
  -- more than `max_attempts`, where that is at least 1. Its attempts have distinct, rising numbers.
  pub rounds_begun-bounded :
      {c d : Claim} (r : Reach settings c d)
      → 1 ≤ settings.max_attempts
      → c.job.attempt_count ≡ 0
      → c.attempts ≡ []
      → (rounds_begun r + (if status_eq d.job.status JobStatus.queued then 1 else 0)
          ≤ settings.max_attempts)
        × Ascending 0 d.attempts
  rounds_begun-bounded {c} {d} r some_round unassigned no_attempts =
      let start : IsWithinBudget settings c = record {
        in_budget = ground (arith, some_round, unassigned);
        numbered = rw no_attempts tt;
      } in
      let h = Reach-IsWithinBudget settings r start in
      (omega (arith, Reach-attempt_count r, unassigned, h.in_budget), h.numbered)
