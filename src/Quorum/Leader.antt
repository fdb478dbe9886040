-- ===== src/Quorum/Leader.antt =====
-- The leader of the count has the most votes.
use gridix_infra.Quorum.Hashes.{hash_eq, hash_eq_iff}
use gridix_infra.Models.Rows.{OutputHash}
use gridix_infra.Prelude.{
  [], ltb→ge, List, Bool, ◌≡◌, ℕ, any, false, ◌∷◌, ◌≤◌, true, arith, Bool-cases, ltb, inr, inl,
  ltb→lt, refl,
}
use mathlib.Core.Path.{subst}
use gridix_infra.Quorum.{count, leader}

abbrev pub listed : OutputHash → List OutputHash → Bool
listed h = any (λ k. hash_eq k h)

pub count-not_listed :
    (h : OutputHash) (hs : List OutputHash) → listed h hs ≡ false → count h hs ≡ 0
count-not_listed h [] e = refl
count-not_listed h (k ∷ hs) e = ground (arith, count-not_listed h hs)

-- The leader has the count that goes with it, and nobody listed has a higher one.
pub leader_counts :
    (ballots hs : List OutputHash) (best : OutputHash × ℕ)
    → best.1 ≡ count best.0 ballots
    → (leader ballots hs best).1 ≡ count (leader ballots hs best).0 ballots
unfolding leader
leader_counts ballots [] best e = e
leader_counts ballots (h ∷ hs) best e = elim (Bool-cases (ltb best.1 (count h ballots))) [
  | inl up ↦ rw (leader, up) (leader_counts ballots hs (h, count h ballots) refl)
  | inr down ↦ rw (leader, down) (leader_counts ballots hs best e)
]

pub leader_rises :
    (ballots hs : List OutputHash) (best : OutputHash × ℕ) → best.1 ≤ (leader ballots hs best).1
unfolding leader
leader_rises ballots [] best = omega arith
leader_rises ballots (h ∷ hs) best = elim (Bool-cases (ltb best.1 (count h ballots))) [
  | inl up ↦
      rw (leader, up) (omega (arith, leader_rises ballots hs (h, count h ballots), ltb→lt _ _ up))
  | inr down ↦ rw (leader, down) (leader_rises ballots hs best)
]

pub leader_tops :
    (ballots hs : List OutputHash) (best : OutputHash × ℕ) (k : OutputHash)
    → listed k hs ≡ true
    → count k ballots ≤ (leader ballots hs best).1
unfolding leader
leader_tops ballots [] best k m = cc
leader_tops ballots (h ∷ hs) best k m = elim (Bool-cases (ltb best.1 (count h ballots))) [
  | inl up ↦
      rw (leader, up)
        (elim (Bool-cases (hash_eq h k)) [
          | inl same ↦
              subst (λ k. count k ballots ≤ (leader ballots hs (h, count h ballots)).1)
                ((hash_eq_iff h k).0 same) (leader_rises ballots hs (h, count h ballots))
          | inr other ↦ leader_tops ballots hs (h, count h ballots) k (ground (arith, m, other))
        ])
  | inr down ↦
      rw (leader, down)
        (elim (Bool-cases (hash_eq h k)) [
          | inl same ↦
              subst (λ k. count k ballots ≤ (leader ballots hs best).1) ((hash_eq_iff h k).0 same)
                (omega (arith, leader_rises ballots hs best, ltb→ge _ _ down))
          | inr other ↦ leader_tops ballots hs best k (ground (arith, m, other))
        ])
]
