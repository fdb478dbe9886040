-- ===== src/Adjudicate.antt =====
-- api/app/adjudicate.py: automated adjudication of disputes.
pub mod Rulings
mod Tests
use gridix_infra.Quorum.Hashes.{hash_eq, is_hashable}
use gridix_infra.Models.Rows.{output_text, output_scalar, output_compound, OutputHash}
use gridix_infra.Prelude.{
  ℕ, Bool, true, false, not, ◌&&◌, ◌==◌, Option, none, some, String, List, [], ◌∷◌, if◌then◌else◌,
  str_eq, find, map, leb, length, ltb, all,
}
use gridix_infra.Models.{DisputeState, AttemptOutcome, outcome_eq}
use gridix_infra.Models.Rows.{Dispute, Evidence, Vote, Job, JobAttempt, Timestamp, Uuid}
use gridix_infra.Session.{Action, pure, ◌>>=◌, raise, type_error}
use gridix_infra.Quorum.{AttemptResult, evaluate_quorum, most_common, needed}
use gridix_infra.Disputes.{resolve_dispute}

-- `x or None`: an empty text is no hash.
abbrev pub truthy : Option String → Option String
truthy none = none
truthy (some h) = if str_eq h "" then none else some h

-- `x.get("output_hash")` where it is true.
abbrev pub truthy_hash : Option OutputHash → Option OutputHash
truthy_hash none = none
truthy_hash (some (output_text h)) = if str_eq h "" then none else some (output_text h)
truthy_hash (some (output_scalar n)) = if n == 0 then none else some (output_scalar n)
truthy_hash (some (output_compound n)) = if ltb n 2 then none else some (output_compound n)

-- The hashes of the votes that succeeded.
abbrev pub vote_hashes : List Vote → List OutputHash
vote_hashes [] = []
vote_hashes (v ∷ vs) =
    let rest = vote_hashes vs in
    if v.succeeded
    then elim (truthy_hash v.output_hash) [ none ↦ rest | some h ↦ h ∷ rest ]
    else rest

abbrev pub majority_of : ℕ → List OutputHash → Option OutputHash
majority_of n [] = none
majority_of n (h ∷ hs) =
    let (winner, votes) = most_common h hs in if leb (needed n) votes then some winner else none

-- `none` stands for the TypeError of `Counter`.
abbrev pub count_majority : ℕ → List OutputHash → Option (Option OutputHash)
count_majority n hs = if all is_hashable hs then some (majority_of n hs) else none

-- `_known_good`
unfoldable pub known_good : Evidence → Option (Option OutputHash)
known_good e = elim (truthy e.expected_output_hash) [
  | some h ↦ some (some (output_text h))
  | none ↦ count_majority (length e.quorum_votes) (vote_hashes e.quorum_votes)
]

-- What both adjudicators return, with the dispute as they leave it.
abbrev pub Ruling : Type 0
Ruling = Option DisputeState × Dispute

-- The dispute goes to human review.
abbrev pub escalate : Dispute → Ruling
escalate d = (none, record d { state = DisputeState.under_review })

abbrev pub rule : Dispute → Bool → String → Timestamp → Action Ruling
rule d upheld reason now = resolve_dispute d upheld reason now >>= λ d'.
    pure (some (if upheld then DisputeState.upheld else DisputeState.overturned), d')

abbrev pub judge : Dispute → Option OutputHash → Option OutputHash → Timestamp → Action Ruling
judge d none submitted now = pure (escalate d)
judge d (some expected) none now = pure (escalate d)
judge d (some expected) (some submitted) now =
    if hash_eq submitted expected
    then rule d false "auto: matches known-good output" now
    else rule d true "auto: differs from known-good output" now

abbrev pub judge_by : Dispute → Timestamp → Option Evidence → Action Ruling
judge_by d now none = pure (escalate d)
judge_by d now (some e) = elim (known_good e) [
  | none ↦ raise type_error
  | some known ↦ judge d known e.submitted_output_hash now
]

unfoldable pub auto_adjudicate : Dispute → Timestamp → Action Ruling
auto_adjudicate d now = judge_by d now d.evidence

-- `(a.proof or {}).get("output_sha256")`
abbrev pub output_of : JobAttempt → Option OutputHash
output_of a = elim a.proof [ none ↦ none | some proof ↦ proof.output_sha256 ]

abbrev pub attempt_result : JobAttempt → AttemptResult
attempt_result a = record {
  provider_id = a.provider_id;
  output_hash = output_of a;
  succeeded = outcome_eq a.outcome AttemptOutcome.completed;
}

abbrev pub required_votes : Option Job → List AttemptResult → ℕ
required_votes none results = length results
required_votes (some job) results = job.redundancy

-- The output of the disputing provider's first attempt.
abbrev pub submitted_by : Uuid → List JobAttempt → Option OutputHash
submitted_by p attempts = elim (find (λ a. a.provider_id == p) attempts) [
  | none ↦ none
  | some a ↦ output_of a
]

abbrev pub differs : Option OutputHash → OutputHash → Bool
differs none h = true
differs (some k) h = not (hash_eq k h)

-- The ruling of a majority; only a text can be shortened for the ruling's reason.
abbrev pub rule_winner :
    (String → String) → Dispute → Option OutputHash → Timestamp → Option OutputHash → Action Ruling
rule_winner summary d submitted now none = pure (escalate d)
rule_winner summary d submitted now (some (output_text winner)) =
    rule d (differs submitted (output_text winner)) (summary winner) now
rule_winner summary d submitted now (some _) = raise type_error

-- `summary` is the text that names the winning hash. The job and the attempts are what the
-- queries by the dispute's job id find. A quorum is reached when it has a winning hash.
unfoldable pub quorum_revote :
    (String → String) → Dispute → Option Job → List JobAttempt → Timestamp → Action Ruling
quorum_revote summary d job attempts now = elim d.job_id [
  | none ↦ pure (escalate d)
  | some _ ↦
      let results = map attempt_result attempts in
      elim (evaluate_quorum results (required_votes job results)) [
        | none ↦ raise type_error
        | some outcome ↦
            rule_winner summary d (submitted_by d.provider_id attempts) now outcome.winning_hash
      ]
]
