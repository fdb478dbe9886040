-- ===== src/Penalties.antt =====
-- api/app/penalties.py: slashes that escalate with the provider's upheld disputes.
pub mod Bounds
mod Tests
use gridix_infra.Prelude.{ℕ, List, count_if, ◌&&◌, ◌==◌, ◌^◌, ltb, if◌then◌else◌}
use gridix_infra.Prelude.Int.{ℤ, scale}
use gridix_infra.Models.{DisputeState, dispute_state_eq}
use gridix_infra.Models.Rows.{Dispute, Uuid}

-- The provider's upheld disputes.
abbrev pub count_prior_offenses : List Dispute → Uuid → ℕ
count_prior_offenses disputes p =
    count_if (λ d. d.provider_id == p && dispute_state_eq d.state DisputeState.upheld) disputes

abbrev pub max_multiplier : ℕ
max_multiplier = 8

abbrev pub multiplier : ℕ → ℕ
multiplier prior_upheld =
    if ltb max_multiplier (2 ^ prior_upheld) then max_multiplier else 2 ^ prior_upheld

unfoldable pub graduated_slash : ℤ → ℕ → ℤ
graduated_slash base prior_upheld = scale (multiplier prior_upheld) base
