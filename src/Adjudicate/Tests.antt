-- ===== src/Adjudicate/Tests.antt =====
-- Runs of the adjudication, and its theorems at them.
use gridix_infra.Quorum.Hashes.{hash_eq}
use gridix_infra.Models.Rows.{output_text}
use gridix_infra.Prelude.{true, some, none, [], ◌∷◌, ◌≡◌, refl, not, List, map}
use gridix_infra.Prelude.Int.{pos, at_least_zero}
use gridix_infra.Models.{LedgerAccount, JobKind, DisputeState}
use gridix_infra.Models.Rows.{Dispute, Evidence}
use gridix_infra.Session.{Session, ok}
use gridix_infra.Ledger.Balances.{Moves}
use gridix_infra.Quorum.{AttemptResult, evaluate_quorum, most_common, leader}
use gridix_infra.Disputes.{ruled}
use gridix_infra.Disputes.Effects.{resolved_dispute, sink, sink_ref}
use gridix_infra.Adjudicate.{known_good, auto_adjudicate}
use gridix_infra.Adjudicate.Rulings.{
  known_good-quorum, auto_adjudicate_rules, auto_reason, vote_of, winner_of,
}

-- Two of three providers agree on "aa".
abbrev three_results : List AttemptResult
three_results =
    record { provider_id = 1; output_hash = some (output_text "aa"); succeeded = true }
    ∷ record { provider_id = 2; output_hash = some (output_text "bb"); succeeded = true }
    ∷ record { provider_id = 3; output_hash = some (output_text "aa"); succeeded = true }
    ∷ []

-- The evidence against provider 2.
abbrev dissent : Evidence
dissent = record {
  job_id = 1;
  kind = JobKind.standard;
  input_ref = none;
  expected_output_hash = none;
  submitted_output_hash = some (output_text "bb");
  submitted_result_ref = none;
  proof = none;
  attempt_number = 2;
  quorum_votes = map vote_of three_results;
}

abbrev dispute_of_dissent : Dispute
dispute_of_dissent = record {
  provider_id = 2;
  job_id = some 1;
  amount = pos 5_000_000_000;
  state = DisputeState.under_review;
  reason = "quorum_disagree";
  evidence = some dissent;
  evidence_hash = some "00";
  ruling_reason = none;
  window_expires_at = none;
  resolved_at = none;
}

abbrev quiet_session : Session
quiet_session = record { entries = []; committed = []; next_uuid = 0 }

dissent-known_good : known_good dissent ≡ some (some (output_text "aa"))
unfolding known_good most_common leader hash_eq
dissent-known_good = refl

known_good-quorum_example : known_good dissent ≡ winner_of (evaluate_quorum three_results 3)
known_good-quorum_example =
    known_good-quorum dissent three_results 3 refl refl refl (refl, (refl, (refl, tt)))

auto_adjudicate_rules_example :
    let upheld = not (hash_eq (output_text "bb") (output_text "aa")) in
    ((auto_adjudicate dispute_of_dissent 9 quiet_session).0
      ≡ ok (
        some (ruled upheld),
        resolved_dispute dispute_of_dissent upheld (auto_reason upheld) 9 quiet_session,
      ))
    × Moves LedgerAccount.disputed
        (some 2)
        (sink upheld)
        (sink_ref upheld 2)
        (at_least_zero (pos 5_000_000_000))
        quiet_session
        (auto_adjudicate dispute_of_dissent 9 quiet_session).1
auto_adjudicate_rules_example =
    auto_adjudicate_rules dispute_of_dissent dissent (output_text "aa") (output_text "bb") 9
      quiet_session refl refl dissent-known_good refl
