-- ===== src/Results/Hashable.antt =====
-- Output hashes of attempts that Python can hash, and the steps that keep them so.
use gridix_infra.Verification.{AgentResultRequest}
use gridix_infra.Quorum.Majority.{IsHashable, IsCountable}
use gridix_infra.Models.Rows.{JobAttempt, Timestamp}
use gridix_infra.Adjudicate.{output_of, attempt_result}
use gridix_infra.Results.Finalize.{finished_of}
use gridix_infra.Results.Recording.{fill_in, give_up, is_stale}
use gridix_infra.Prelude.{
  [], ◌∷◌, none, some, inl, inr, List, All, All-sublist, Bool, map, is_some, Option, All-map,
  Bool-cases, ◌==◌,
}

-- The attempt's output hash is neither a list nor an object.
abbrev pub HasHashable : JobAttempt → Type 0
HasHashable a = IsHashable (output_of a)

countable :
    (attempts : List JobAttempt)
    → All HasHashable attempts
    → IsCountable (map attempt_result attempts)
countable [] hs = tt
countable (a ∷ attempts) (h, hs) = (inr h, countable attempts hs)

pub finished_of-IsCountable :
    (attempts : List JobAttempt)
    → All HasHashable attempts
    → IsCountable (map attempt_result (finished_of attempts))
finished_of-IsCountable attempts hs =
    countable (finished_of attempts)
      (All-sublist HasHashable (λ a. is_some a.finished_at) attempts hs)

pub fill_in-HasHashable :
    (now : Timestamp) (req : AgentResultRequest) (valid : Bool) (o : Option JobAttempt)
    (attempts : List JobAttempt)
    → IsHashable req.proof.output_sha256
    → All HasHashable attempts
    → All HasHashable (fill_in now req valid o attempts)
fill_in-HasHashable now req valid none attempts h hs = hs
fill_in-HasHashable now req valid (some a) attempts h hs =
    All-map HasHashable _ attempts
      (λ b k. elim (Bool-cases (b.attempt_number == a.attempt_number)) [
        | inl e ↦ rw e h
        | inr e ↦ rw e k
      ])
      hs

pub give_up-HasHashable :
    (now : Timestamp) (attempts : List JobAttempt)
    → All HasHashable attempts
    → All HasHashable (map (give_up now) attempts)
give_up-HasHashable now attempts hs =
    All-map HasHashable (give_up now) attempts
      (λ b k. elim (Bool-cases (is_stale now b)) [ inl e ↦ rw e k | inr e ↦ rw e k ]) hs
