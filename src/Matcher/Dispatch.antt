-- ===== src/Matcher/Dispatch.antt =====
-- A job that is assigned to what the reputation policy offers.
use gridix_infra.Prelude.Sort.{sort_by, All-sort_by}
use gridix_infra.Matcher.Policies.{is_eligible, IsEligible, qualified-IsEligible}
use gridix_infra.Matcher.{
  Tables, reputation_candidates, is_capable, is_trusted, has_stake, before_reputation,
}
use gridix_infra.Models.{JobStatus, status_eq}
use gridix_infra.Config.{Settings}
use gridix_infra.Models.Rows.{Provider, Timestamp, JobAttempt, Job}
use mathlib.Core.Path.{subst}
use gridix_infra.Prelude.{
  ℕ, zero, suc, Bool, true, ◌&&◌, List, [], ◌∷◌, ◌≡◌, refl, arith, inl, inr, Bool-cases, All, take,
  ◌≤◌, length, filter, All-sublist, All-filter,
}
use gridix_infra.Assignment.{
  assign_providers, assign_to, start_round, Outcome, finished, raised, Claim, wanted,
}
use gridix_infra.StateMachine.{Transition, moved, illegal, transition}

module _ (P : Provider → Type 0) where
  All-take : (n : ℕ) (ps : List Provider) → All P ps → All P (take n ps)
  All-take zero ps hs = tt
  All-take (suc n) [] hs = tt
  All-take (suc n) (p ∷ ps) (h, hs) = (h, All-take n ps hs)

  abbrev IsChosen : ℕ → Outcome (List Provider) → Type 0
  IsChosen n (raised from target) = Unit
  IsChosen n (finished ps c) = All P ps × (length ps ≤ n)

  start_round-IsChosen :
      (settings : Settings) (now : Timestamp) (p : Provider) (ps : List Provider)
      (attempts : List JobAttempt) (n : ℕ) (t : Transition)
      → All P (p ∷ ps)
      → length (p ∷ ps) ≤ n
      → IsChosen n (start_round settings now p ps attempts t)
  start_round-IsChosen settings now p ps attempts n (illegal from target) hs le = tt
  start_round-IsChosen settings now p ps attempts n (moved job) hs le = (hs, le)

  assign_to-IsChosen :
      (settings : Settings) (now : Timestamp) (c : Claim) (ps : List Provider) (n : ℕ)
      → All P ps
      → length ps ≤ n
      → IsChosen n (assign_to settings now c ps)
  assign_to-IsChosen settings now c [] n hs le = (tt, le)
  assign_to-IsChosen settings now c (p ∷ ps) n hs le =
      start_round-IsChosen settings now p ps c.attempts n (transition c.job JobStatus.assigned now)
        hs le

  length-take : (n : ℕ) (ps : List Provider) → length (take n ps) ≤ n
  length-take zero ps = omega arith
  length-take (suc n) [] = omega arith
  length-take (suc n) (p ∷ ps) = omega (arith, length-take n ps)

  assign_providers-IsChosen :
      (settings : Settings) (now : Timestamp) (candidates : List Provider) (c : Claim)
      → All P candidates
      → IsChosen (wanted c.job) (assign_providers settings now candidates c)
  unfolding assign_providers
  assign_providers-IsChosen settings now candidates c hs =
      elim (Bool-cases (status_eq c.job.status JobStatus.queued)) [
        | inl e ↦ rw e (
            assign_to-IsChosen settings now c (take (wanted c.job) candidates) (wanted c.job)
              (All-take (wanted c.job) candidates hs) (length-take (wanted c.job) candidates))
        | inr e ↦ rw e (tt, omega arith)
      ]

module _ (settings : Settings) (now : Timestamp) (tables : Tables) (job : Job) where
  All-both :
      (p q : Provider → Bool) (ps : List Provider)
      → All (λ x. p x ≡ true) ps
      → All (λ x. q x ≡ true) ps
      → All (λ x. (p x && q x) ≡ true) ps
  All-both p q [] hs ks = tt
  All-both p q (x ∷ xs) (h, hs) (k, ks) = (rw (h, k) refl, All-both p q xs hs ks)

  All-IsEligible :
      (ps : List Provider)
      → All (λ p. is_eligible settings now tables job p ≡ true) ps
      → All (IsEligible settings now tables job) ps
  All-IsEligible [] hs = tt
  All-IsEligible (p ∷ ps) (h, hs) =
      (qualified-IsEligible settings now tables job p h, All-IsEligible ps hs)

  candidates-IsEligible :
      All (IsEligible settings now tables job) (reputation_candidates settings now tables job)
  unfolding reputation_candidates
  candidates-IsEligible =
      let qualified : Provider → Bool =
        λ p. is_capable settings now tables job p && is_trusted settings now tables job p in
      let stake = has_stake settings now tables job in
      let before = before_reputation settings now tables job in
      let sorted = sort_by before (filter qualified tables.providers) in
      All-IsEligible (filter stake sorted) (
        All-both qualified stake (filter stake sorted)
          (All-sublist (λ p. qualified p ≡ true) stake sorted
            (All-sort_by before (λ p. qualified p ≡ true) (filter qualified tables.providers)
              (All-filter qualified tables.providers)))
          (All-filter stake sorted))

finished-IsChosen :
    (P : Provider → Type 0) (n : ℕ) (o : Outcome (List Provider)) (ps : List Provider) (d : Claim)
    → o ≡ finished ps d
    → IsChosen P n o
    → All P ps × (length ps ≤ n)
finished-IsChosen P n o ps d e h = subst (IsChosen P n) e h

-- Work only goes to eligible providers: whoever a round of assignment gets from the reputation
-- policy is enabled and not degraded, has the cores, the memory and a place among its concurrent
-- jobs, was seen within the connection timeout where it was seen at all, has a GPU with the memory
-- where the job wants one, is attested where the tier is `confidential_tee`, has the reputation
-- where the job is of high value, and has the minimal stake. There are no more of them than the job
-- wants.
pub assign_providers-IsEligible :
    (settings : Settings) (now : Timestamp) (tables : Tables) (c : Claim) (ps : List Provider)
    (d : Claim)
    → assign_providers settings now (reputation_candidates settings now tables c.job) c
      ≡ finished ps d
    → All (IsEligible settings now tables c.job) ps × (length ps ≤ wanted c.job)
assign_providers-IsEligible settings now tables c ps d e =
    finished-IsChosen (IsEligible settings now tables c.job) (wanted c.job) _ ps d e (
      assign_providers-IsChosen (IsEligible settings now tables c.job) settings now
        (reputation_candidates settings now tables c.job) c
        (candidates-IsEligible settings now tables c.job))
