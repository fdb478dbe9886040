-- ===== src/Quorum/Majority.antt =====
-- A quorum is a strict majority of the required votes, and only one output can have it.
use gridix_infra.Quorum.Hashes.{hash_eq, hash_eq_iff}
use gridix_infra.Models.Rows.{OutputHash, output_compound, output_text, output_scalar}
use gridix_infra.Quorum.Leader.{listed, leader_counts, leader_tops, leader_rises, count-not_listed}
use gridix_infra.Prelude.{
  [], ltb→ge, List, ◌≡◌, ℕ, false, ◌∷◌, ◌≤◌, true, arith, Bool-cases, ltb, inr, inl, ltb→lt, refl,
  ◌≢◌, ◌+◌, length, Option-cases, sym, ◌∙◌, some, ◌⊎◌, ◌↔◌, none, ◌<◌, ap, or_default, all, Option,
  All,
}
use mathlib.Core.Path.{subst}
use gridix_infra.Quorum.{
  count, leader, AttemptResult, most_common, agreers_of, votes, needed, decide_quorum, quorum_of,
  no_quorum, quorum_outcome, evaluate_quorum, is_countable, QuorumOutcome, is_hashable_output,
}

-- Two different outputs share the votes between them.
count-disjoint :
    (h k : OutputHash) (hs : List OutputHash) → h ≢ k → count h hs + count k hs ≤ length hs
count-disjoint h k [] ne = omega arith
count-disjoint h k (x ∷ hs) ne = elim (Bool-cases (hash_eq x h)) [
  | inl is_h ↦ elim (Bool-cases (hash_eq x k)) [
    | inl is_k ↦ absurd (ne (sym ((hash_eq_iff x h).0 is_h) ∙ (hash_eq_iff x k).0 is_k))
    | inr not_k ↦ ground (arith, count-disjoint h k hs ne, is_h, not_k)
  ]
  | inr not_h ↦ ground (arith, count-disjoint h k hs ne, not_h)
]

hash_eq-apart : (h k : OutputHash) → hash_eq h k ≡ false → h ≢ k
hash_eq-apart h k e p = ground (arith, e, (hash_eq_iff h k).1 p)

pub length-agreers_of :
    (h : OutputHash) (attempts : List AttemptResult)
    → length (agreers_of h attempts) ≡ count h (votes attempts)
length-agreers_of h [] = refl
length-agreers_of h (a ∷ attempts) = elim (Option-cases a.output_hash) [
  | inl e ↦ ground (arith, length-agreers_of h attempts, e)
  | inr (k, e) ↦ ground (arith, length-agreers_of h attempts, e)
]

most_common_tops :
    (h k : OutputHash) (hs : List OutputHash) → count k (h ∷ hs) ≤ (most_common h hs).1
unfolding most_common
most_common_tops h k hs = elim (Bool-cases (listed k hs)) [
  | inl there ↦ leader_tops (h ∷ hs) hs (h, count h (h ∷ hs)) k there
  | inr missing ↦ elim (Bool-cases (hash_eq h k)) [
    | inl same ↦
        subst (λ k. count k (h ∷ hs) ≤ (leader (h ∷ hs) hs (h, count h (h ∷ hs))).1)
          ((hash_eq_iff h k).0 same) (leader_rises (h ∷ hs) hs (h, count h (h ∷ hs)))
    | inr other ↦ ground (arith, count-not_listed k hs missing, other)
  ]
]

most_common_counts :
    (h : OutputHash) (hs : List OutputHash)
    → (most_common h hs).1 ≡ count (most_common h hs).0 (h ∷ hs)
unfolding most_common
most_common_counts h hs = leader_counts (h ∷ hs) hs (h, count h (h ∷ hs)) refl

-- Two outputs cannot both have a strict majority.
majority_unique :
    (h k : OutputHash) (hs : List OutputHash) (redundancy : ℕ)
    → length hs ≤ redundancy
    → needed redundancy ≤ count h hs
    → needed redundancy ≤ count k hs
    → h ≡ k
majority_unique h k hs redundancy enough eh ek = elim (Bool-cases (hash_eq h k)) [
  | inl same ↦ (hash_eq_iff h k).0 same
  | inr other ↦
      absurd (omega (arith, count-disjoint h k hs (hash_eq-apart h k other), enough, eh, ek))
]

winner_of :
    (attempts : List AttemptResult) (redundancy : ℕ) (best : OutputHash × ℕ)
    → ((decide_quorum attempts redundancy best).winning_hash ≡ some best.0
        × needed redundancy ≤ best.1)
      ⊎ ((decide_quorum attempts redundancy best).winning_hash ≡ none × best.1 < needed redundancy)
unfolding decide_quorum
winner_of attempts redundancy (winner, n) = elim (Bool-cases (ltb n (needed redundancy))) [
  | inl few ↦ rw few (inr (refl, ltb→lt _ _ few))
  | inr many ↦ rw many (inl (refl, ltb→ge _ _ many))
]

some_eq : {h k : OutputHash} → some h ≡ some k → h ≡ k
some_eq {h} e = ap (λ o. or_default o h) e

quorum_of_iff :
    (attempts : List AttemptResult) (redundancy : ℕ) (hs : List OutputHash) (h : OutputHash)
    → length hs ≤ redundancy
    → ((quorum_of attempts redundancy hs).winning_hash ≡ some h) ↔ (needed redundancy ≤ count h hs)
unfolding quorum_of
quorum_of_iff attempts redundancy [] h enough =
    (λ e. absurd (ground (arith, e)), λ e. absurd (omega (arith, e)))
quorum_of_iff attempts redundancy (k ∷ hs) h enough =
    let best = most_common k hs in
    elim (winner_of attempts redundancy best) [
      | inl (won, many) ↦ (
        λ e.
            subst (λ h. needed redundancy ≤ count h (k ∷ hs)) (some_eq (sym won ∙ e))
              (subst (λ n. needed redundancy ≤ n) (most_common_counts k hs) many),
        λ e.
            won
            ∙ ap some (
                majority_unique best.0 h (k ∷ hs) redundancy enough
                  (subst (λ n. needed redundancy ≤ n) (most_common_counts k hs) many) e),
      )
      | inr (lost, few) ↦ (
        λ e. absurd (ground (arith, sym lost ∙ e)),
        λ e. absurd (omega (arith, few, e, most_common_tops k h hs)),
      )
    ]

agrees :
    (attempts : List AttemptResult) (redundancy : ℕ) (hs : List OutputHash)
    → votes attempts ≡ hs
    → (quorum_of attempts redundancy hs ≡ no_quorum)
      ⊎ ((h : OutputHash) × ((quorum_of attempts redundancy hs).winning_hash ≡ some h)
          × (needed redundancy ≤ count h (votes attempts))
          × (length (quorum_of attempts redundancy hs).agreers ≡ count h (votes attempts)))
unfolding quorum_of decide_quorum
agrees attempts redundancy [] e = inl refl
agrees attempts redundancy (k ∷ hs) e =
    let best = most_common k hs in
    elim (Bool-cases (ltb best.1 (needed redundancy))) [
      | inl few ↦ rw few (inl refl)
      | inr many ↦ rw many (
          inr (
            best.0,
            refl,
            subst (λ ballots. needed redundancy ≤ count best.0 ballots) (sym e)
                (subst (λ n. needed redundancy ≤ n) (most_common_counts k hs) (ltb→ge _ _ many)),
            length-agreers_of best.0 attempts,
          ))
    ]

quorum_outcome_iff :
    (attempts : List AttemptResult) (redundancy : ℕ) (h : OutputHash)
    → length (votes attempts) ≤ redundancy
    → ((quorum_outcome attempts redundancy).winning_hash ≡ some h)
      ↔ (needed redundancy ≤ count h (votes attempts))
unfolding quorum_outcome
quorum_outcome_iff attempts redundancy h enough =
    quorum_of_iff attempts redundancy (votes attempts) h enough

-- The output hash is neither a list nor an object.
abbrev pub IsHashable : Option OutputHash → Type 0
IsHashable o = ¬ ((n : ℕ) × (o ≡ some (output_compound n)))

-- Each attempt has failed or has such a hash.
abbrev pub IsCountable : List AttemptResult → Type 0
IsCountable attempts = All (λ a. (a.succeeded ≡ false) ⊎ IsHashable a.output_hash) attempts

hashable_output : (o : Option OutputHash) → IsHashable o → is_hashable_output o ≡ true
hashable_output none h = refl
hashable_output (some (output_text t)) h = refl
hashable_output (some (output_scalar n)) h = refl
hashable_output (some (output_compound n)) h = absurd (h (n, refl))

all_counted :
    (attempts : List AttemptResult) → IsCountable attempts → all is_countable attempts ≡ true
all_counted [] hs = refl
all_counted (a ∷ attempts) (inl failed, hs) = rw (failed, all_counted attempts hs) refl
all_counted (a ∷ attempts) (inr h, hs) =
    rw (hashable_output a.output_hash h, all_counted attempts hs) (ground arith)

pub evaluate_quorum-some :
    (attempts : List AttemptResult) (redundancy : ℕ)
    → IsCountable attempts
    → evaluate_quorum attempts redundancy ≡ some (quorum_outcome attempts redundancy)
unfolding evaluate_quorum
evaluate_quorum-some attempts redundancy countable = rw (all_counted attempts countable) refl

-- When no attempt that succeeded has a list or an object for an output hash, and no more attempts
-- voted than the job's redundancy, the quorum raises nothing, and an output wins it exactly when it has a strict majority
-- of the required votes.
pub evaluate_quorum_iff :
    (attempts : List AttemptResult) (redundancy : ℕ) (h : OutputHash)
    → IsCountable attempts
    → length (votes attempts) ≤ redundancy
    → (o : QuorumOutcome) × (evaluate_quorum attempts redundancy ≡ some o)
      × ((o.winning_hash ≡ some h) ↔ (needed redundancy ≤ count h (votes attempts)))
evaluate_quorum_iff attempts redundancy h countable enough = (
  quorum_outcome attempts redundancy,
  evaluate_quorum-some attempts redundancy countable,
  quorum_outcome_iff attempts redundancy h enough,
)

-- Whatever the number of attempts: either no quorum is reached and nobody agrees, or the winning
-- output has a strict majority of the required votes and the agreers are as many as its votes.
pub quorum_outcome_agrees :
    (attempts : List AttemptResult) (redundancy : ℕ)
    → (quorum_outcome attempts redundancy ≡ no_quorum)
      ⊎ ((h : OutputHash) × ((quorum_outcome attempts redundancy).winning_hash ≡ some h)
          × (needed redundancy ≤ count h (votes attempts))
          × (length (quorum_outcome attempts redundancy).agreers ≡ count h (votes attempts)))
unfolding quorum_outcome
quorum_outcome_agrees attempts redundancy = agrees attempts redundancy (votes attempts) refl

quorum_of_cases :
    (attempts : List AttemptResult) (redundancy : ℕ) (hs : List OutputHash)
    → votes attempts ≡ hs
    → (quorum_of attempts redundancy hs ≡ no_quorum)
      ⊎ ((h : OutputHash) × (1 ≤ count h (votes attempts))
          × ((quorum_of attempts redundancy hs).reached ≡ true)
          × ((quorum_of attempts redundancy hs).agreers ≡ agreers_of h attempts))
unfolding quorum_of decide_quorum
quorum_of_cases attempts redundancy [] e = inl refl
quorum_of_cases attempts redundancy (k ∷ hs) e =
    let best = most_common k hs in
    elim (Bool-cases (ltb best.1 (needed redundancy))) [
      | inl few ↦ rw few (inl refl)
      | inr many ↦ rw many (
          inr (
            best.0,
            subst (λ ballots. 1 ≤ count best.0 ballots) (sym e)
                (omega (arith, most_common_counts k hs, ltb→ge best.1 (needed redundancy) many)),
            refl,
            refl,
          ))
    ]

-- A quorum is not reached, or its agreers are those that voted for some output that has a vote.
pub quorum_outcome_cases :
    (attempts : List AttemptResult) (redundancy : ℕ)
    → (quorum_outcome attempts redundancy ≡ no_quorum)
      ⊎ ((h : OutputHash) × (1 ≤ count h (votes attempts))
          × ((quorum_outcome attempts redundancy).reached ≡ true)
          × ((quorum_outcome attempts redundancy).agreers ≡ agreers_of h attempts))
unfolding quorum_outcome
quorum_outcome_cases attempts redundancy = quorum_of_cases attempts redundancy (votes attempts) refl
