-- ===== src/NodeUsage/Bounds.antt =====
-- What a reported usage can cost.
use gridix_infra.Prelude.Int.{pos_part}
use native.Mathlib.Nat.{mul-le-mul_left}
use gridix_infra.Catalog.{ModelSpec, chat_cost, chat_worst_case}
use gridix_infra.NodeUsage.{ChatUsage, RawUsage, Reported, reported_tokens, usage_from, clamp_to}
use gridix_infra.Prelude.{some, refl, arith, Bool, ℕ, false, true, ◌≡◌, ◌≤◌, leb, leb→le}

abbrev pub is_finite : Reported → Bool
is_finite Reported.not_finite = false
is_finite _ = true

-- The node gives no usable count, or one that is at most the estimate.
abbrev pub within_estimate : Reported → ℕ → Bool
within_estimate Reported.absent n = true
within_estimate Reported.not_a_number n = true
within_estimate Reported.not_finite n = false
within_estimate (Reported.whole value) n = leb (pos_part value) n
within_estimate (Reported.fraction value) n = leb (pos_part value) n

reported-within :
    (r : Reported) (default : ℕ)
    → within_estimate r default ≡ true
    → (n : ℕ) × (reported_tokens r default ≡ some n) × (n ≤ default)
unfolding reported_tokens
reported-within Reported.absent default h = (default, refl, omega arith)
reported-within Reported.not_a_number default h = (default, refl, omega arith)
reported-within Reported.not_finite default h = cc
reported-within (Reported.whole value) default h = (pos_part value, refl, leb→le _ _ h)
reported-within (Reported.fraction value) default h = (pos_part value, refl, leb→le _ _ h)

reported-some : (r : Reported) → is_finite r ≡ true → (n : ℕ) × (reported_tokens r 0 ≡ some n)
unfolding reported_tokens
reported-some Reported.absent h = (0, refl)
reported-some Reported.not_a_number h = (0, refl)
reported-some Reported.not_finite h = cc
reported-some (Reported.whole value) h = (pos_part value, refl)
reported-some (Reported.fraction value) h = (pos_part value, refl)

clamp_to-le : (ceiling claimed : ℕ) → clamp_to ceiling claimed ≤ ceiling
clamp_to-le ceiling claimed = ground arith

cost_mono :
    (spec : ModelSpec) (i j k l : ℕ) → i ≤ j → k ≤ l → chat_cost spec i k ≤ chat_worst_case spec j l
unfolding chat_cost chat_worst_case
cost_mono spec i j k l h h' = omega (
  arith,
  mul-le-mul_left spec.input_cents_per_mtok h,
  mul-le-mul_left spec.output_cents_per_mtok h',
)

-- Where a node claims no more prompt tokens than were estimated, and a finite number of completion
-- tokens, or where it gives no usable counts, reading its usage never raises, it bills no more
-- completion tokens than the request's ceiling, and the request costs at most the worst case that
-- its reservation held.
pub usage_from_bounds :
    (spec : ModelSpec) (raw : RawUsage) (prompt_tokens max_output_tokens : ℕ)
    → within_estimate raw.prompt_tokens prompt_tokens ≡ true
    → is_finite raw.completion_tokens ≡ true
    → (u : ChatUsage) × (usage_from raw prompt_tokens max_output_tokens ≡ some u)
      × (u.completion_tokens ≤ max_output_tokens)
      × (chat_cost spec u.prompt_tokens u.completion_tokens
          ≤ chat_worst_case spec prompt_tokens max_output_tokens)
unfolding usage_from
usage_from_bounds spec raw prompt_tokens max_output_tokens h k =
    let (n, e, least) = reported-within raw.prompt_tokens prompt_tokens h in
    let (m, f) = reported-some raw.completion_tokens k in
    (
      record { prompt_tokens = n; completion_tokens = clamp_to max_output_tokens m },
      rw (e, f) refl,
      clamp_to-le max_output_tokens m,
      cost_mono spec n prompt_tokens (clamp_to max_output_tokens m) max_output_tokens least
          (clamp_to-le max_output_tokens m),
    )
