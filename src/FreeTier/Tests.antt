-- ===== src/FreeTier/Tests.antt =====
-- Two images a day.
use gridix_infra.FreeTier.Quota.{after, granted_for, call_key, granted, charge_all, granted_for_lem}
use gridix_infra.FreeTier.{UsageSession, consume_daily, used_today, unique_violation}
use gridix_infra.Prelude.{String, List, [], ◌∷◌, ◌≡◌, refl, true}
use gridix_infra.Models.Rows.{Timestamp}

abbrev no_usage : UsageSession
no_usage = record { rows = []; committed = [] }

-- Three calls of one wallet and one of another on the first day.
abbrev calls : List (String × Timestamp)
calls = ("w", 5) ∷ ("v", 6) ∷ ("w", 7) ∷ ("w", 8) ∷ []

granted_for_lem_example :
    (granted_for 2 "image" (call_key "image" ("w", 9)) calls no_usage ≡ 2)
    × (used_today "w" "image" 9 (charge_all 2 "image" calls no_usage)
        ≡ granted_for 2 "image" (call_key "image" ("w", 9)) calls no_usage)
granted_for_lem_example = granted_for_lem 2 "image" "w" 9 calls

-- A second kind on the same day is refused by the table's unique constraint.
second_kind_violates :
    consume_daily "w" "video" 2 6 (after (consume_daily "w" "image" 2 5 no_usage))
    ≡ unique_violation (after (consume_daily "w" "image" 2 5 no_usage))
unfolding consume_daily
second_kind_violates = refl

next_day_granted :
    granted
      (consume_daily "w" "image" 1 86_400_000_000 (after (consume_daily "w" "image" 1 5 no_usage)))
    ≡ true
unfolding consume_daily
next_day_granted = refl
