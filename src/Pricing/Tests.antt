-- ===== src/Pricing/Tests.antt =====
-- Costs at concrete inputs.
use gridix_infra.Prelude.{◌≡◌, refl}
use gridix_infra.Decimal.{round_half_up}
use gridix_infra.Pricing.{compute_cost, escrow_estimate, data_cost, round_half_up}
use gridix_infra.Config.{default_settings}
use gridix_infra.Models.Samples.{two_cores}

-- Two cores for 50 seconds at 1 USD a core and minute.
compute_cost_runs : compute_cost two_cores 50_000_000 default_settings ≡ 166_666_667
unfolding compute_cost round_half_up
compute_cost_runs = refl

escrow_estimate_runs : escrow_estimate two_cores 300 default_settings ≡ 1_000_000_000
unfolding escrow_estimate round_half_up
escrow_estimate_runs = refl

data_cost_runs : data_cost 1_500_000_000 default_settings ≡ 15_000_000
unfolding data_cost round_half_up
data_cost_runs = refl
