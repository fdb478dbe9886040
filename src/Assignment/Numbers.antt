-- ===== src/Assignment/Numbers.antt =====
-- The attempt numbers of a job rise, whatever is added or closed.
use mathlib.Core.Path.{subst}
use gridix_infra.Prelude.{
  ℕ, List, [], ◌∷◌, ◌++◌, map, ◌+◌, ◌<◌, ◌≤◌, ◌==◌, ◌≡◌, refl, sym, arith, Bool-cases, inl, inr,
  if◌then◌else◌, some, or_default,
}
use gridix_infra.Models.{AttemptOutcome}
use gridix_infra.Models.Rows.{JobAttempt, Provider, Timestamp, Uuid}
use gridix_infra.Assignment.{max_number, new_attempts}

-- The attempt numbers rise from above `n`.
abbrev pub Ascending : ℕ → List JobAttempt → Type 0
Ascending n [] = Unit
Ascending n (a ∷ attempts) = (n < a.attempt_number) × Ascending a.attempt_number attempts

pub new_attempts-Ascending :
    (n base : ℕ) (job_id : Uuid) (lease : Timestamp) (ps : List Provider)
    → n ≤ base
    → Ascending n (new_attempts job_id base lease ps)
new_attempts-Ascending n base job_id lease [] le = tt
new_attempts-Ascending n base job_id lease (p ∷ ps) le =
    (omega (arith, le), new_attempts-Ascending (base + 1) (base + 1) job_id lease ps (omega arith))

pub append-Ascending :
    (n base : ℕ) (job_id : Uuid) (lease : Timestamp) (ps : List Provider)
    (attempts : List JobAttempt)
    → max_number attempts ≤ base
    → n ≤ base
    → Ascending n attempts
    → Ascending n (attempts ++ new_attempts job_id base lease ps)
append-Ascending n base job_id lease ps [] top le h =
    new_attempts-Ascending n base job_id lease ps le
append-Ascending n base job_id lease ps (a ∷ attempts) top le h = (
  h.0,
  append-Ascending a.attempt_number base job_id lease ps attempts (ground (arith, top))
      (ground (arith, top)) h.1,
)

module _ (now : Timestamp) (outcome : AttemptOutcome) (m : ℕ) where
  abbrev pub close : JobAttempt → JobAttempt
  close a =
      if a.attempt_number == m
      then record a { outcome = outcome; finished_at = some (or_default a.finished_at now) }
      else a

  close-number : (a : JobAttempt) → (close a).attempt_number ≡ a.attempt_number
  close-number a = elim (Bool-cases (a.attempt_number == m)) [
    | inl e ↦ rw e refl
    | inr e ↦ rw e refl
  ]

  pub close-Ascending :
      (n : ℕ) (attempts : List JobAttempt) → Ascending n attempts → Ascending n (map close attempts)
  close-Ascending n [] h = tt
  close-Ascending n (a ∷ attempts) h = (
    subst (λ k. n < k) (sym (close-number a)) h.0,
    subst (λ k. Ascending k (map close attempts)) (sym (close-number a))
        (close-Ascending a.attempt_number attempts h.1),
  )
