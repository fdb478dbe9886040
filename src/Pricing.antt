-- ===== src/Pricing.antt =====
-- api/app/pricing.py: what a run and its data cost. Results are in ledger units.
pub mod Bounds
mod Tests
use gridix_infra.Prelude.{ℕ, ◌*◌, ◌^◌, Bool, ltb, if◌then◌else◌}
use gridix_infra.Models.Rows.{ResourceSpec}
use gridix_infra.Config.{Settings, second}
use gridix_infra.Decimal.{round_half_up, round_context}

-- `max(1, int(spec.get("cpu_cores", 1)))`
abbrev pub billed_cores : ResourceSpec → ℕ
billed_cores spec = if ltb spec.cpu_cores 1 then 1 else spec.cpu_cores

abbrev pub gpu_multiplier : Bool → ℕ
gpu_multiplier gpu = if gpu then 4 else 1

-- The duration is in microseconds. Minutes and cost are each rounded to the context's 28 digits.
unfoldable pub compute_cost : ResourceSpec → ℕ → Settings → ℕ
unfolding round_context
compute_cost spec duration settings =
    let (minutes, e) = round_context duration (60 * second) in
    let unit = settings.base_job_price * billed_cores spec * gpu_multiplier spec.gpu in
    let (cost, d) = round_context (unit * minutes) (10 ^ e) in round_half_up cost (10 ^ d)

unfoldable pub escrow_estimate : ResourceSpec → ℕ → Settings → ℕ
unfolding compute_cost
escrow_estimate spec timeout_seconds settings =
    compute_cost spec (timeout_seconds * second) settings

unfoldable pub protocol_fee : ℕ → Settings → ℕ
protocol_fee cost settings = round_half_up (cost * settings.protocol_fee_bps) 10_000

unfoldable pub data_cost : ℕ → Settings → ℕ
data_cost num_bytes settings = round_half_up (num_bytes * settings.data_price_per_gb) 1_000_000_000
