-- ===== src/NodeUsage/Tests.antt =====
-- A node that claims more than its ceiling.
use gridix_infra.NodeUsage.Bounds.{usage_from_bounds}
use gridix_infra.Catalog.{chat_cost, chat_model, chat_worst_case}
use gridix_infra.NodeUsage.{
  RawUsage, usage_from, reported_tokens, absent, whole, not_finite, ChatUsage,
}
use gridix_infra.Prelude.{none, some, ◌≡◌, refl, ◌≤◌}
use gridix_infra.Prelude.Int.{pos}

abbrev greedy : RawUsage
greedy = record { prompt_tokens = absent; completion_tokens = whole (pos 900) }

clamped : usage_from greedy 20 100 ≡ some (record { prompt_tokens = 20; completion_tokens = 100 })
unfolding usage_from reported_tokens
clamped = refl

-- A count of 1e999 raises.
infinite : usage_from (record greedy { completion_tokens = not_finite }) 20 100 ≡ none
unfolding usage_from reported_tokens
infinite = refl

usage_from_bounds_example :
    (u : ChatUsage) × (usage_from greedy 20 100 ≡ some u)
    × (u.completion_tokens ≤ 100)
    × (chat_cost (chat_model "llama-3.1-8b" 5 8 128_000) u.prompt_tokens u.completion_tokens
        ≤ chat_worst_case (chat_model "llama-3.1-8b" 5 8 128_000) 20 100)
usage_from_bounds_example =
    usage_from_bounds (chat_model "llama-3.1-8b" 5 8 128_000) greedy 20 100 refl refl
