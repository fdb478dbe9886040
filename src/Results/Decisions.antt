-- ===== src/Results/Decisions.antt =====
-- What a running job's finished attempts decide.
use gridix_infra.Prelude.{
  Bool, false, ◌&&◌, ◌==◌, List, [], ◌∷◌, map, any, ◌≡◌, refl, arith, none, some, if◌then◌else◌,
  all, ℕ, ◌++◌,
}
use gridix_infra.Models.{AttemptOutcome, outcome_eq, JobStatus}
use gridix_infra.Models.Rows.{JobAttempt, Uuid, Timestamp, Job, output_compound}
use gridix_infra.Quorum.{evaluate_quorum, is_countable}
use gridix_infra.Adjudicate.{attempt_result, output_of}
use gridix_infra.Results.Finalize.{decided, decide_job, all_timed_out, unhashable}

abbrev among : Uuid → List Uuid → Bool
among q ids = any (λ p. p == q) ids

abbrev test : List Uuid → JobAttempt → Bool
test agreers a = among a.provider_id agreers && outcome_eq a.outcome AttemptOutcome.completed

-- The job that is completed with a winner.
abbrev pub IsWon : Timestamp → Job → List JobAttempt → Type 0
IsWon now job attempts =
    (k : Job) × (w : Uuid) × (decide_job now job attempts ≡ decided k (some w))
    × (k.status ≡ JobStatus.completed)

-- The job that ends without one.
abbrev pub IsLost : Timestamp → Job → List JobAttempt → Type 0
IsLost now job attempts =
    (k : Job) × (decide_job now job attempts ≡ decided k none)
    × (k.status ≡ (if all_timed_out attempts then JobStatus.timeout else JobStatus.failed))

not_counted :
    (a : JobAttempt) (n : ℕ) (before after : List JobAttempt)
    → a.outcome ≡ AttemptOutcome.completed
    → output_of a ≡ some (output_compound n)
    → all is_countable (map attempt_result (before ++ a ∷ after)) ≡ false
not_counted a n [] after done compound = rw (done, compound) refl
not_counted a n (b ∷ before) after done compound =
    rw (not_counted a n before after done compound) (ground arith)

-- One completed attempt with a list or an object for an output hash makes the decision raise,
-- whatever the attempts before and after it are.
pub decide_job_raises :
    (now : Timestamp) (job : Job) (a : JobAttempt) (n : ℕ) (before after : List JobAttempt)
    → a.outcome ≡ AttemptOutcome.completed
    → output_of a ≡ some (output_compound n)
    → decide_job now job (before ++ a ∷ after) ≡ unhashable
unfolding decide_job evaluate_quorum
decide_job_raises now job a n before after done compound =
    rw (not_counted a n before after done compound) refl
