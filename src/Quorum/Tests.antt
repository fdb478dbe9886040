-- ===== src/Quorum/Tests.antt =====
-- The quorum theorems at concrete votes.
use gridix_infra.Models.Rows.{output_text, output_compound}
use gridix_infra.Quorum.Hashes.{hash_eq}
use gridix_infra.Prelude.{true, some, [], ◌∷◌, List, ◌≡◌, ◌↔◌, ◌≤◌, arith, refl, none, inr}
use gridix_infra.Quorum.{
  AttemptResult, evaluate_quorum, votes, count, needed, quorum_of, decide_quorum, most_common,
  leader, quorum_outcome, QuorumOutcome,
}
use gridix_infra.Quorum.Majority.{evaluate_quorum_iff}

-- Two of three attempts agree.
abbrev three_votes : List AttemptResult
three_votes =
    record { provider_id = 1; output_hash = some (output_text "aa"); succeeded = true }
    ∷ record { provider_id = 2; output_hash = some (output_text "bb"); succeeded = true }
    ∷ record { provider_id = 3; output_hash = some (output_text "aa"); succeeded = true }
    ∷ []

three_votes-disagreers : (quorum_outcome three_votes 3).disagreers ≡ 2 ∷ []
unfolding quorum_outcome quorum_of decide_quorum most_common leader hash_eq
three_votes-disagreers = refl

-- A list for a hash raises.
unhashable_vote :
    evaluate_quorum
      (record { provider_id = 4; output_hash = some (output_compound 2); succeeded = true }
        ∷ three_votes)
      3
    ≡ none
unfolding evaluate_quorum
unhashable_vote = refl

evaluate_quorum_iff_example :
    (o : QuorumOutcome) × (evaluate_quorum three_votes 3 ≡ some o)
    × ((o.winning_hash ≡ some (output_text "aa"))
        ↔ (needed 3 ≤ count (output_text "aa") (votes three_votes)))
evaluate_quorum_iff_example =
    evaluate_quorum_iff three_votes 3 (output_text "aa")
      (inr (λ (n, e). cc), (inr (λ (n, e). cc), (inr (λ (n, e). cc), tt))) (omega arith)
