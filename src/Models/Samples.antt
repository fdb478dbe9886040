-- ===== src/Models/Samples.antt =====
-- Rows that the tests of several components start from.
use gridix_infra.Prelude.{false, true, none, some}
use gridix_infra.Prelude.Int.{pos}
use gridix_infra.Models.Enums.{JobStatus, JobKind, DataTier}
use gridix_infra.Models.Rows.{Job, ResourceSpec, Provider}

abbrev pub two_cores : ResourceSpec
two_cores = record { cpu_cores = 2; memory_mb = 2048; gpu = false; gpu_vram_mb = 0 }

-- A job that developer 7 has just submitted with 10 USD in escrow.
abbrev pub new_job : Job
new_job = record {
  id = 1;
  developer_id = 7;
  kind = JobKind.standard;
  status = JobStatus.queued;
  input_ref = none;
  result_ref = none;
  resource_spec = two_cores;
  timeout_seconds = 300;
  data_tier = DataTier.public;
  is_high_value = false;
  redundancy = 1;
  expected_output_hash = none;
  proof = none;
  assigned_provider_id = none;
  attempt_count = 0;
  lease_expires_at = none;
  escrow_amount = some 1_000_000_000;
  cost_final = none;
  queued_at = some 0;
  assigned_at = none;
  started_at = none;
  finished_at = none;
}

abbrev pub plain_provider : Provider
plain_provider = record {
  id = 21;
  gpu_model = none;
  gpu_vram_mb = 0;
  cpu_cores = 8;
  memory_mb = 16384;
  max_concurrent = 2;
  reputation = pos 100;
  enabled = true;
  tee_attested = false;
  degraded = false;
  last_seen = none;
}
