-- ===== src/Adjudicate/Rulings.antt =====
-- The automated adjudication and the quorum that it re-takes from the evidence.
use gridix_infra.Quorum.Hashes.{is_hashable, hash_eq}
use gridix_infra.Prelude.Int.{at_least_zero}
use gridix_infra.Ledger.Balances.{Moves}
use gridix_infra.Disputes.Effects.{resolved_dispute, sink, sink_ref, resolve_dispute-Moves}
use gridix_infra.Disputes.{is_resolved, ruled, resolve_dispute}
use gridix_infra.Prelude.{
  ℕ, Bool, false, none, some, String, List, [], ◌∷◌, map, All, length, ◌≡◌, refl, ap, ◌∙◌, arith,
  Bool-cases, Option-cases, inl, inr, suc, if◌then◌else◌, not, all, Option,
}
use gridix_infra.Models.{LedgerAccount}
use gridix_infra.Models.Rows.{Dispute, Evidence, Vote, Timestamp, OutputHash}
use gridix_infra.Session.{Session, ok, bind_ok, pure, raise}
use gridix_infra.Quorum.{
  AttemptResult, evaluate_quorum, quorum_of, votes, decide_quorum, quorum_outcome, is_countable,
  QuorumOutcome,
}
use gridix_infra.Adjudicate.{
  truthy, vote_hashes, majority_of, known_good, auto_adjudicate, escalate, judge, rule, judge_by,
  truthy_hash, count_majority, type_error,
}

-- The vote that the evidence records of an attempt.
abbrev pub vote_of : AttemptResult → Vote
vote_of r = record {
  provider_id = r.provider_id;
  output_hash = r.output_hash;
  succeeded = r.succeeded;
}

-- The attempt's hash, if it has one, is neither the empty text nor another value that is false.
abbrev pub HasProperHash : AttemptResult → Type 0
HasProperHash r = truthy_hash r.output_hash ≡ r.output_hash

vote_hashes-votes :
    (results : List AttemptResult)
    → All HasProperHash results
    → vote_hashes (map vote_of results) ≡ votes results
vote_hashes-votes [] h = refl
vote_hashes-votes (r ∷ results) (proper, h) = elim (Option-cases r.output_hash) [
  | inl e ↦ ground (arith, e, vote_hashes-votes results h)
  | inr (k, e) ↦ ground (arith, e, proper ∙ e, vote_hashes-votes results h)
]

quorum_of-majority :
    (results : List AttemptResult) (redundancy : ℕ) (hs : List OutputHash)
    → (quorum_of results redundancy hs).winning_hash ≡ majority_of redundancy hs
unfolding quorum_of decide_quorum
quorum_of-majority results redundancy [] = refl
quorum_of-majority results redundancy (h ∷ hs) = ground arith

known_good_unknown :
    (e : Evidence)
    → truthy e.expected_output_hash ≡ none
    → known_good e ≡ count_majority (length e.quorum_votes) (vote_hashes e.quorum_votes)
unfolding known_good
known_good_unknown e unknown = rw (known_good, unknown) refl

-- What can be counted as votes can be counted as hashes.
votes-countable :
    (results : List AttemptResult) → all is_hashable (votes results) ≡ all is_countable results
votes-countable [] = refl
votes-countable (r ∷ results) =
    let ih = votes-countable results in
    elim (Bool-cases r.succeeded) [
      | inl s ↦ elim (Option-cases r.output_hash) [
        | inl e ↦ rw (s, e) ih
        | inr (k, e) ↦ rw (s, e, ih) refl
      ]
      | inr s ↦ rw s ih
    ]

-- What wins a quorum, if it raises nothing.
abbrev pub winner_of : Option QuorumOutcome → Option (Option OutputHash)
winner_of none = none
winner_of (some o) = some o.winning_hash

quorum-majority :
    (results : List AttemptResult) (redundancy : ℕ)
    → count_majority redundancy (votes results) ≡ winner_of (evaluate_quorum results redundancy)
unfolding evaluate_quorum quorum_outcome
quorum-majority results redundancy = elim (Bool-cases (all is_countable results)) [
  | inl e ↦
      let same = quorum_of-majority results redundancy (votes results) in
      rw (votes-countable results, e, same) refl
  | inr e ↦ rw (votes-countable results, e) refl
]

length-map_vote : (results : List AttemptResult) → length (map vote_of results) ≡ length results
length-map_vote [] = refl
length-map_vote (r ∷ results) = ap suc (length-map_vote results)

-- When as many attempts were recorded as the job requires, and no expected output is known, the
-- evidence of a slash gives back just the winner of the quorum that the slash came from, and raises
-- just where that raises. The hashes are taken not to be empty or zero.
pub known_good-quorum :
    (e : Evidence) (results : List AttemptResult) (redundancy : ℕ)
    → truthy e.expected_output_hash ≡ none
    → e.quorum_votes ≡ map vote_of results
    → length results ≡ redundancy
    → All HasProperHash results
    → known_good e ≡ winner_of (evaluate_quorum results redundancy)
known_good-quorum e results redundancy unknown recorded all_in proper =
    known_good_unknown e unknown
    ∙ ap (λ vs. count_majority (length vs) (vote_hashes vs)) recorded
    ∙ ap (λ n. count_majority n (vote_hashes (map vote_of results)))
        (length-map_vote results ∙ all_in)
    ∙ ap (count_majority redundancy) (vote_hashes-votes results proper)
    ∙ quorum-majority results redundancy

-- The reason that the adjudication gives.
abbrev pub auto_reason : Bool → String
auto_reason upheld =
    if upheld then "auto: differs from known-good output" else "auto: matches known-good output"

judge-rule :
    (d : Dispute) (expected submitted : OutputHash) (now : Timestamp)
    → let upheld = not (hash_eq submitted expected) in
      judge d (some expected) (some submitted) now ≡ rule d upheld (auto_reason upheld) now
judge-rule d expected submitted now = elim (Bool-cases (hash_eq submitted expected)) [
  | inl same ↦ rw same refl
  | inr other ↦ rw other refl
]

rule_lem :
    (d : Dispute) (upheld : Bool) (reason : String) (now : Timestamp) (s : Session)
    → is_resolved d.state ≡ false
    → rule d upheld reason now s ≡ (
      ok (some (ruled upheld), resolved_dispute d upheld reason now s),
      (resolve_dispute d upheld reason now s).1,
    )
rule_lem d upheld reason now s waiting =
    let result = resolve_dispute d upheld reason now s in
    bind_ok (resolve_dispute d upheld reason now) (λ d'. pure (some (ruled upheld), d'))
      (resolved_dispute d upheld reason now s) s result.1
      (λ i. ((resolve_dispute-Moves d upheld reason now s waiting).0 i, result.1))

module _ (d : Dispute) (e : Evidence) (expected submitted : OutputHash) (now : Timestamp)
    (s : Session) where
  auto-rule :
      d.evidence ≡ some e
      → known_good e ≡ some (some expected)
      → e.submitted_output_hash ≡ some submitted
      → let upheld = not (hash_eq submitted expected) in
        auto_adjudicate d now ≡ rule d upheld (auto_reason upheld) now
  unfolding auto_adjudicate
  auto-rule has knows claims =
      ap (judge_by d now) has
      ∙ ap
          (λ known. elim known [
            | none ↦ raise type_error
            | some k ↦ judge d k e.submitted_output_hash now
          ])
          knows
      ∙ ap (λ claim. judge d (some expected) claim now) claims
      ∙ judge-rule d expected submitted now

  -- On a pending dispute whose reference output and submitted output are known, the adjudication
  -- never raises. It overturns the slash exactly where the two outputs are equal and upholds it
  -- otherwise, and it moves just the held amount out of the provider's disputed account: back to
  -- the stake, or to the protocol.
  pub auto_adjudicate_rules :
      is_resolved d.state ≡ false
      → d.evidence ≡ some e
      → known_good e ≡ some (some expected)
      → e.submitted_output_hash ≡ some submitted
      → let upheld = not (hash_eq submitted expected) in
        ((auto_adjudicate d now s).0
          ≡ ok (some (ruled upheld), resolved_dispute d upheld (auto_reason upheld) now s))
        × Moves LedgerAccount.disputed
            (some d.provider_id)
            (sink upheld)
            (sink_ref upheld d.provider_id)
            (at_least_zero d.amount)
            s
            (auto_adjudicate d now s).1
  auto_adjudicate_rules waiting has knows claims =
      let upheld = not (hash_eq submitted expected) in
      rw (auto-rule has knows claims) (
        rw (rule_lem d upheld (auto_reason upheld) now s waiting)
          (refl, (resolve_dispute-Moves d upheld (auto_reason upheld) now s waiting).1))

  -- Without a reference output the adjudication raises nothing, posts nothing and sends the
  -- dispute to human review.
  pub auto_adjudicate_escalates :
      d.evidence ≡ some e
      → known_good e ≡ some none
      → auto_adjudicate d now s ≡ (ok (escalate d), s)
  unfolding auto_adjudicate
  auto_adjudicate_escalates has unknown = λ i.
      (ap (judge_by d now) has
          ∙ ap
              (λ known. elim known [
                | none ↦ raise type_error
                | some k ↦ judge d k e.submitted_output_hash now
              ])
              unknown)
        i s
