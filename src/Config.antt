-- ===== src/Config.antt =====
-- The settings of api/app/config.py that the modelled code reads. Times are in microseconds, prices
-- in units of 0.00000001 USD, reputations in half points; the other amounts are whole USD.
use gridix_infra.Prelude.{ℕ}

pub record Settings : Type 0 where
  pub lease_seconds : ℕ
  pub max_attempts : ℕ
  pub connection_timeout_seconds : ℕ
  pub dispute_window_seconds : ℕ
  pub min_provider_stake : ℕ
  pub slash_amount : ℕ
  pub high_value_min_reputation : ℕ
  pub protocol_fee_bps : ℕ
  pub base_job_price : ℕ
  pub data_price_per_gb : ℕ

-- One USD in ledger units.
abbrev pub usd : ℕ
usd = 100_000_000

-- One second in microseconds.
abbrev pub second : ℕ
second = 1_000_000

-- The defaults.
abbrev pub default_settings : Settings
default_settings = record {
  lease_seconds = 60_000_000;
  max_attempts = 3;
  connection_timeout_seconds = 30_000_000;
  dispute_window_seconds = 86_400_000_000;
  min_provider_stake = 100;
  slash_amount = 50;
  high_value_min_reputation = 140;
  protocol_fee_bps = 250;
  base_job_price = 100_000_000;
  data_price_per_gb = 10_000_000;
}
