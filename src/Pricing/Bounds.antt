-- ===== src/Pricing/Bounds.antt =====
-- A fee is a part of its cost.
use native.Mathlib.Nat.{mul-le-mul_left, mul-le-mul_right}
use gridix_infra.Decimal.{round_half_up-le, round_half_up_mono}
use gridix_infra.Prelude.{◌≤◌, arith}
use gridix_infra.Pricing.{protocol_fee, ℕ, Settings}

-- With at most 10,000 basis points the protocol's fee is at most the cost, so the provider's part
-- is not negative; and a higher cost has no lower fee.
pub protocol_fee_bounds :
    (c d : ℕ) (settings : Settings)
    → settings.protocol_fee_bps ≤ 10_000
    → c ≤ d
    → (protocol_fee c settings ≤ c) × (protocol_fee c settings ≤ protocol_fee d settings)
unfolding protocol_fee
protocol_fee_bounds c d settings h le = (
  round_half_up-le _ 10_000 c (omega arith) (mul-le-mul_left c h),
  round_half_up_mono _ _ 10_000 (omega arith) (mul-le-mul_right settings.protocol_fee_bps le),
)
