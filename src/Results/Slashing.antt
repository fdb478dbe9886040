-- ===== src/Results/Slashing.antt =====
-- Who is slashed for an attempt, and who is not.
use gridix_infra.Prelude.{
  Bool, true, false, ◌||◌, not, List, none, some, ◌≡◌, refl, arith, Bool-cases, inl, inr,
  if◌then◌else◌, String, ltb, ◌⊎◌, ◌<◌, lt→ltb,
}
use gridix_infra.Prelude.Int.{min_ℤ, at_least_zero}
use gridix_infra.Models.{LedgerAccount, ReputationKind, AttemptOutcome}
use gridix_infra.Models.Rows.{Job, JobAttempt, Provider, Dispute, Evidence, Timestamp}
use gridix_infra.Config.{Settings}
use gridix_infra.Session.{Session, Action, ok, then_ok, pure}
use gridix_infra.Ledger.{provider_stake}
use gridix_infra.Ledger.Balances.{Moves}
use gridix_infra.Quorum.{AttemptResult}
use gridix_infra.Disputes.{open_dispute}
use gridix_infra.Disputes.Effects.{open_dispute-Moves, opened_dispute}
use gridix_infra.Results.Outcomes.{
  Consequence, one_event, rewarded, is_cheating, slash_of, slash_evidence, apply_outcome,
  honest_rep, slash_for,
}

rewarded-undisputed :
    (job : Job) (p : Provider) (kind : ReputationKind) → (rewarded job p kind).dispute ≡ none
rewarded-undisputed job p kind = elim (Bool-cases (ltb 1 job.redundancy)) [
  | inl e ↦ rw e refl
  | inr e ↦ rw e refl
]

module _ (commitment : Evidence → String) (settings : Settings) (now : Timestamp)
    (disputes : List Dispute) (job : Job) (p : Provider) (attempt : JobAttempt)
    (won is_canary : Bool) (all_results : List AttemptResult) (s : Session) where
  abbrev applied : Action Consequence
  applied = apply_outcome commitment settings now disputes job p attempt won is_canary all_results

  -- The dispute that a slash opens.
  abbrev pub slash_dispute : Dispute
  slash_dispute =
      opened_dispute commitment settings now p.id (slash_of settings disputes p.id)
        (if is_canary then "canary_fail" else "quorum_disagree") (some job.id)
        (some (slash_evidence job attempt all_results))
        (min_ℤ (slash_of settings disputes p.id) (provider_stake s.entries p.id))

  opening :
      let held = min_ℤ (slash_of settings disputes p.id) (provider_stake s.entries p.id) in
      let result =
        open_dispute commitment settings now p.id
          (slash_of settings disputes p.id)
          (if is_canary then "canary_fail" else "quorum_disagree")
          (some job.id)
          (some (slash_evidence job attempt all_results))
          s in
      (result.0 ≡ ok slash_dispute)
      × Moves LedgerAccount.stake
          (some p.id)
          LedgerAccount.disputed
          (some p.id)
          (at_least_zero held)
          s
          result.1
  opening =
      open_dispute-Moves commitment settings now p.id (slash_of settings disputes p.id)
        (if is_canary then "canary_fail" else "quorum_disagree") (some job.id)
        (some (slash_evidence job attempt all_results)) s

  slash_for_lem :
      slash_for commitment settings now disputes job p attempt is_canary all_results s ≡ (
        ok (
            one_event p
              (if is_canary then ReputationKind.canary_fail else ReputationKind.quorum_disagree)
              job.id
              (some slash_dispute)),
        (open_dispute commitment settings now p.id
            (slash_of settings disputes p.id)
            (if is_canary then "canary_fail" else "quorum_disagree")
            (some job.id)
            (some (slash_evidence job attempt all_results))
            s).1,
      )
  slash_for_lem =
      then_ok
        (open_dispute commitment settings now p.id (slash_of settings disputes p.id)
          (if is_canary then "canary_fail" else "quorum_disagree") (some job.id)
          (some (slash_evidence job attempt all_results)))
        (λ dispute. pure (
          one_event p
            (if is_canary then ReputationKind.canary_fail else ReputationKind.quorum_disagree)
            job.id (some dispute)))
        slash_dispute s opening.0

  -- A provider that won, or that missed no canary and did not dissent from a redundant job's
  -- quorum with a completed attempt, is not slashed: applying the outcome never raises, posts
  -- nothing and opens no dispute.
  pub apply_outcome_spares :
      (won || not (is_cheating job attempt is_canary)) ≡ true
      → (c : Consequence) × (applied s ≡ (ok c, s)) × (c.dispute ≡ none)
  unfolding apply_outcome
  apply_outcome_spares honest = elim (Bool-cases won) [
    | inl w ↦
        let kind = if is_canary then ReputationKind.canary_pass else ReputationKind.job_success in
        (rewarded job p kind, rw w refl, rewarded-undisputed job p kind)
    | inr l ↦ (one_event p (honest_rep attempt.outcome) job.id none, rw (l, is_honest l) refl, refl)
  ]
    where
      is_honest : won ≡ false → is_cheating job attempt is_canary ≡ false
      is_honest l = ground (arith, l, honest)

  cheats :
      (is_canary ≡ true) ⊎ ((1 < job.redundancy) × (attempt.outcome ≡ AttemptOutcome.completed))
      → is_cheating job attempt is_canary ≡ true
  cheats (inl e) = rw e refl
  cheats (inr (many, e)) = elim (Bool-cases is_canary) [
    | inl c ↦ rw c refl
    | inr c ↦ rw (c, lt→ltb 1 job.redundancy many, e) refl
  ]

  pub slashed :
      won ≡ false
      → is_cheating job attempt is_canary ≡ true
      → ((applied s).0
          ≡ ok (
              one_event p
                (if is_canary then ReputationKind.canary_fail else ReputationKind.quorum_disagree)
                job.id
                (some slash_dispute)))
        × Moves LedgerAccount.stake
            (some p.id)
            LedgerAccount.disputed
            (some p.id)
            (at_least_zero slash_dispute.amount)
            s
            (applied s).1
  unfolding apply_outcome
  slashed lost cheat = rw (lost, cheat) (rw slash_for_lem (refl, opening.1))

  -- A provider that did not win is slashed where the job is a canary, whatever the outcome of its
  -- attempt, and where the job's redundancy is above one and its attempt completed, also when no
  -- quorum was reached: applying the outcome never raises, opens a dispute with
  -- the evidence over the graduated slash, at most the stake, and moves just that from the
  -- provider's stake to its disputed account. The loss of reputation is the one of a failed canary
  -- or a quorum dissent.
  pub apply_outcome_slashes :
      won ≡ false
      → (is_canary ≡ true) ⊎ ((1 < job.redundancy) × (attempt.outcome ≡ AttemptOutcome.completed))
      → ((applied s).0
          ≡ ok (
              one_event p
                (if is_canary then ReputationKind.canary_fail else ReputationKind.quorum_disagree)
                job.id
                (some slash_dispute)))
        × Moves LedgerAccount.stake
            (some p.id)
            LedgerAccount.disputed
            (some p.id)
            (at_least_zero slash_dispute.amount)
            s
            (applied s).1
  apply_outcome_slashes lost guilty = slashed lost (cheats guilty)
