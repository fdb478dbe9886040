-- ===== src/Models/Rows.antt =====
-- The tables of api/app/models.py as records: the columns that the modelled operations use.
use gridix_infra.Models.{DisputeState}
use gridix_infra.Prelude.{ℕ, Bool, Option, String, List}
use gridix_infra.Prelude.Int.{ℤ}
use gridix_infra.Models.Enums.{
  JobStatus, JobKind, AttemptOutcome, LedgerDirection, LedgerAccount, ReputationKind, DataTier,
}

abbrev pub Uuid : Type 0
Uuid = ℕ

abbrev pub Timestamp : Type 0
Timestamp = ℕ

-- `Job.resource_spec`, with the defaults of its readers filled in.
pub record ResourceSpec : Type 0 where
  pub cpu_cores : ℕ
  pub memory_mb : ℕ
  pub gpu : Bool
  pub gpu_vram_mb : ℕ

-- A JSON scalar, as a proof may carry for its exit code; `null` also when the key is missing.
pub data Scalar : Type 0 where
  null : Scalar
  boolean : Bool → Scalar
  number : ℤ → Scalar
  text : String → Scalar

-- The output hash of a proof, which may be any JSON value: a text, a number or Boolean, or a list
-- or object, of which the last two cannot be hashed. Equal values have equal numbers; 0 stands for
-- the numbers and Booleans that are false, 0 and 1 for the empty list and the empty object.
pub data OutputHash : Type 0 where
  output_text : String → OutputHash
  output_scalar output_compound : ℕ → OutputHash

-- The two keys of a proof that the code reads.
pub record Proof : Type 0 where
  pub exit_code : Scalar
  pub output_sha256 : Option OutputHash

-- The amounts of a job come from the price functions, which are never negative.
pub record Job : Type 0 where
  pub id : Uuid
  pub developer_id : Uuid
  pub kind : JobKind
  pub status : JobStatus
  pub input_ref : Option String
  pub result_ref : Option String
  pub resource_spec : ResourceSpec
  pub timeout_seconds : ℕ
  pub data_tier : DataTier
  pub is_high_value : Bool
  pub redundancy : ℕ
  pub expected_output_hash : Option String
  pub proof : Option Proof
  pub assigned_provider_id : Option Uuid
  pub attempt_count : ℕ
  pub lease_expires_at : Option Timestamp
  pub escrow_amount : Option ℕ
  pub cost_final : Option ℕ
  pub queued_at : Option Timestamp
  pub assigned_at : Option Timestamp
  pub started_at : Option Timestamp
  pub finished_at : Option Timestamp

pub record Provider : Type 0 where
  pub id : Uuid
  pub gpu_model : Option String
  pub gpu_vram_mb : ℕ
  pub cpu_cores : ℕ
  pub memory_mb : ℕ
  pub max_concurrent : ℕ
  pub reputation : ℤ
  pub enabled : Bool
  pub tee_attested : Bool
  pub degraded : Bool
  pub last_seen : Option Timestamp

pub record JobAttempt : Type 0 where
  pub job_id : Uuid
  pub provider_id : Uuid
  pub attempt_number : ℕ
  pub outcome : AttemptOutcome
  pub lease_expires_at : Option Timestamp
  pub result_ref : Option String
  pub proof : Option Proof
  pub finished_at : Option Timestamp

pub record LedgerEntry : Type 0 where
  pub entry_group : Uuid
  pub job_id : Option Uuid
  pub account : LedgerAccount
  pub account_ref : Option Uuid
  pub direction : LedgerDirection
  pub amount : ℤ
  pub reason : String
  pub tx_hash : Option String

pub record ReputationEvent : Type 0 where
  pub provider_id : Uuid
  pub job_id : Option Uuid
  pub kind : ReputationKind
  pub delta : ℤ
  pub score_after : ℤ

-- The evidence of a slash, `_slash_evidence`: its votes are the attempts as the quorum saw them.
pub record Vote : Type 0 where
  pub provider_id : Uuid
  pub output_hash : Option OutputHash
  pub succeeded : Bool

pub record Evidence : Type 0 where
  pub job_id : Uuid
  pub kind : JobKind
  pub input_ref : Option String
  pub expected_output_hash : Option String
  pub submitted_output_hash : Option OutputHash
  pub submitted_result_ref : Option String
  pub proof : Option Proof
  pub attempt_number : ℕ
  pub quorum_votes : List Vote

pub record Dispute : Type 0 where
  pub provider_id : Uuid
  pub job_id : Option Uuid
  pub amount : ℤ
  pub state : DisputeState
  pub reason : String
  pub evidence : Option Evidence
  pub evidence_hash : Option String
  pub ruling_reason : Option String
  pub window_expires_at : Option Timestamp
  pub resolved_at : Option Timestamp
