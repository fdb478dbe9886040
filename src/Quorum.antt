-- ===== src/Quorum.antt =====
-- api/app/quorum.py: agreement over the output hashes of redundant attempts.
pub mod Hashes
pub mod Leader
pub mod Majority
mod Tests
use gridix_infra.Quorum.Hashes.{hash_eq, is_hashable}
use gridix_infra.Prelude.{
  Bool, List, false, ℕ, Option, ◌∷◌, count_if, map, none, ◌/◌, if◌then◌else◌, some, ltb, filter, [],
  ◌+◌, ◌&&◌, not, true, any, ◌==◌, is_some, ◌||◌, all,
}
use gridix_infra.Models.Rows.{Uuid, OutputHash}

pub record AttemptResult : Type 0 where
  pub provider_id : Uuid
  pub output_hash : Option OutputHash
  pub succeeded : Bool

pub record QuorumOutcome : Type 0 where
  pub reached : Bool
  pub winning_hash : Option OutputHash
  pub agreers : List Uuid
  pub disagreers : List Uuid

-- The hashes of the usable attempts.
abbrev pub votes : List AttemptResult → List OutputHash
votes [] = []
votes (a ∷ attempts) =
    let rest = votes attempts in
    if a.succeeded then elim a.output_hash [ none ↦ rest | some h ↦ h ∷ rest ] else rest

abbrev pub count : OutputHash → List OutputHash → ℕ
count h hs = count_if (λ k. hash_eq k h) hs

-- The first hash with the highest count; `best` is the leader so far.
unfoldable pub leader : List OutputHash → List OutputHash → OutputHash × ℕ → OutputHash × ℕ
leader ballots [] best = best
leader ballots (h ∷ hs) best =
    leader ballots hs (if ltb best.1 (count h ballots) then (h, count h ballots) else best)

-- `Counter(hashes).most_common(1)[0]`, of a list that is not empty.
unfoldable pub most_common : OutputHash → List OutputHash → OutputHash × ℕ
unfolding leader
most_common h hs = leader (h ∷ hs) hs (h, count h (h ∷ hs))

abbrev pub voted_for : OutputHash → AttemptResult → Bool
voted_for h a = elim a.output_hash [ none ↦ false | some k ↦ hash_eq k h ] && a.succeeded

abbrev pub agreers_of : OutputHash → List AttemptResult → List Uuid
agreers_of h attempts = map (λ a. a.provider_id) (filter (voted_for h) attempts)

abbrev pub disagreers_of : List Uuid → List AttemptResult → List Uuid
disagreers_of agreers attempts =
    map (λ a. a.provider_id)
      (filter
        (λ a.
          not (any (λ p. p == a.provider_id) agreers) && (is_some a.output_hash || not a.succeeded))
        attempts)

abbrev pub no_quorum : QuorumOutcome
no_quorum = record { reached = false; winning_hash = none; agreers = []; disagreers = [] }

-- The strict majority of the required votes.
abbrev pub needed : ℕ → ℕ
needed redundancy = redundancy / 2 + 1

unfoldable pub decide_quorum : List AttemptResult → ℕ → OutputHash × ℕ → QuorumOutcome
decide_quorum attempts redundancy (winner, n) =
    if ltb n (needed redundancy)
    then no_quorum
    else let agreers = agreers_of winner attempts in
      record {
        reached = true;
        winning_hash = some winner;
        agreers = agreers;
        disagreers = disagreers_of agreers attempts;
      }

unfoldable pub quorum_of : List AttemptResult → ℕ → List OutputHash → QuorumOutcome
unfolding decide_quorum
quorum_of attempts redundancy [] = no_quorum
quorum_of attempts redundancy (h ∷ hs) = decide_quorum attempts redundancy (most_common h hs)

-- What the quorum comes to when every usable hash can be hashed.
unfoldable pub quorum_outcome : List AttemptResult → ℕ → QuorumOutcome
unfolding quorum_of
quorum_outcome attempts redundancy = quorum_of attempts redundancy (votes attempts)

abbrev pub is_hashable_output : Option OutputHash → Bool
is_hashable_output none = true
is_hashable_output (some h) = is_hashable h

-- The attempt is not usable, or `Counter` can count its hash.
abbrev pub is_countable : AttemptResult → Bool
is_countable a = not a.succeeded || is_hashable_output a.output_hash

-- `none` stands for the TypeError of `Counter`.
unfoldable pub evaluate_quorum : List AttemptResult → ℕ → Option QuorumOutcome
evaluate_quorum attempts redundancy =
    if all is_countable attempts then some (quorum_outcome attempts redundancy) else none
