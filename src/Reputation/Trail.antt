-- ===== src/Reputation/Trail.antt =====
-- What a provider's events say of its score.
use gridix_infra.Prelude.{Option, List, [], ◌∷◌, ◌≡◌, refl, arith}
use gridix_infra.Prelude.Int.{ℤ, ◌+ℤ◌, ◌≤ℤ◌, min_ℤ, max_ℤ}
use gridix_infra.Models.{ReputationKind}
use gridix_infra.Models.Rows.{Provider, ReputationEvent, Uuid}
use gridix_infra.Reputation.{rep_min, rep_max, clamp, change_of, record_reputation}

-- One thing that shifts trust.
pub record Shift : Type 0 where
  pub kind : ReputationKind
  pub job_id : Option Uuid
  pub delta : Option ℤ

-- The provider and its events after a sequence of shifts.
abbrev pub record_all : Provider → List Shift → Provider × List ReputationEvent
record_all p [] = (p, [])
record_all p (x ∷ xs) =
    let (q, event) = record_reputation p x.kind x.job_id x.delta in
    let (r, events) = record_all q xs in (r, event ∷ events)

-- The score that the events alone account for.
abbrev pub replay : ℤ → List ReputationEvent → ℤ
replay score [] = score
replay score (e ∷ events) = replay (clamp (score +ℤ e.delta)) events

clamp_bounds : (x : ℤ) → (rep_min ≤ℤ clamp x) × (clamp x ≤ℤ rep_max)
unfolding clamp max_ℤ min_ℤ
clamp_bounds x = ground arith

-- Whatever events a provider meets, each with its default or another delta: the score stays in its
-- range if it started there, and the events alone account for it.
pub record_all_trail :
    (p : Provider) (xs : List Shift)
    → rep_min ≤ℤ p.reputation
    → p.reputation ≤ℤ rep_max
    → let (q, events) = record_all p xs in
      (rep_min ≤ℤ q.reputation)
      × (q.reputation ≤ℤ rep_max)
      × (q.reputation ≡ replay p.reputation events)
unfolding record_reputation
record_all_trail p [] low high = (low, high, refl)
record_all_trail p (x ∷ xs) low high =
    let (q, event) = record_reputation p x.kind x.job_id x.delta in
    let bounds = clamp_bounds (p.reputation +ℤ change_of x.kind x.delta) in
    record_all_trail q xs bounds.0 bounds.1
