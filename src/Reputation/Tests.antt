-- ===== src/Reputation/Tests.antt =====
-- A provider that succeeds once and is then caught cheating.
use gridix_infra.Prelude.{[], ◌∷◌, none, some, ◌≡◌, refl, arith, List}
use gridix_infra.Prelude.Int.{pos, ◌≤ℤ◌, ◌+ℤ◌, min_ℤ, max_ℤ}
use gridix_infra.Models.{ReputationKind}
use gridix_infra.Models.Samples.{plain_provider}
use gridix_infra.Reputation.{rep_min, rep_max, record_reputation, clamp, delta_of}
use gridix_infra.Reputation.Trail.{Shift, record_all, replay, record_all_trail}

abbrev cheat : List Shift
cheat =
    record { kind = ReputationKind.job_success; job_id = some 1; delta = none }
    ∷ record { kind = ReputationKind.canary_fail; job_id = some 2; delta = none }
    ∷ []

cheat_score : (record_all plain_provider cheat).0.reputation ≡ pos 52
unfolding record_reputation clamp delta_of ◌+ℤ◌ min_ℤ max_ℤ
cheat_score = refl

record_all_trail_example :
    let (q, events) = record_all plain_provider cheat in
    (rep_min ≤ℤ q.reputation) × (q.reputation ≤ℤ rep_max) × (q.reputation ≡ replay (pos 100) events)
record_all_trail_example = record_all_trail plain_provider cheat (omega arith) (omega arith)
