-- ===== src/Models/Enums.antt =====
-- The string enums of api/app/models.py, and equality on them.
use gridix_infra.Prelude.{ℕ, Bool, ◌==◌}

pub data JobStatus : Type 0 where
  queued assigned running completed failed timeout : JobStatus

pub data JobKind : Type 0 where
  standard canary : JobKind

pub data AttemptOutcome : Type 0 where
  assigned running completed failed timeout reassigned : AttemptOutcome

pub data LedgerDirection : Type 0 where
  debit credit : LedgerDirection

pub data LedgerAccount : Type 0 where
  developer provider protocol escrow stake disputed : LedgerAccount

pub data DisputeState : Type 0 where
  opened under_review upheld overturned : DisputeState

pub data ReputationKind : Type 0 where
  job_success job_failure timeout canary_pass canary_fail : ReputationKind
  quorum_agree quorum_disagree dispute slash : ReputationKind

pub data DataTier : Type 0 where
  public encrypted_at_rest confidential_tee : DataTier

-- Members of an enum are equal when their positions are.
abbrev pub status_code : JobStatus → ℕ
status_code JobStatus.queued = 0
status_code JobStatus.assigned = 1
status_code JobStatus.running = 2
status_code JobStatus.completed = 3
status_code JobStatus.failed = 4
status_code JobStatus.timeout = 5

abbrev pub status_eq : JobStatus → JobStatus → Bool
status_eq a b = status_code a == status_code b

abbrev pub outcome_code : AttemptOutcome → ℕ
outcome_code AttemptOutcome.assigned = 0
outcome_code AttemptOutcome.running = 1
outcome_code AttemptOutcome.completed = 2
outcome_code AttemptOutcome.failed = 3
outcome_code AttemptOutcome.timeout = 4
outcome_code AttemptOutcome.reassigned = 5

abbrev pub outcome_eq : AttemptOutcome → AttemptOutcome → Bool
outcome_eq a b = outcome_code a == outcome_code b

abbrev pub account_code : LedgerAccount → ℕ
account_code LedgerAccount.developer = 0
account_code LedgerAccount.provider = 1
account_code LedgerAccount.protocol = 2
account_code LedgerAccount.escrow = 3
account_code LedgerAccount.stake = 4
account_code LedgerAccount.disputed = 5

abbrev pub account_eq : LedgerAccount → LedgerAccount → Bool
account_eq a b = account_code a == account_code b

abbrev pub direction_code : LedgerDirection → ℕ
direction_code debit = 0
direction_code credit = 1

abbrev pub direction_eq : LedgerDirection → LedgerDirection → Bool
direction_eq a b = direction_code a == direction_code b

abbrev pub kind_code : JobKind → ℕ
kind_code JobKind.standard = 0
kind_code JobKind.canary = 1

abbrev pub kind_eq : JobKind → JobKind → Bool
kind_eq a b = kind_code a == kind_code b

abbrev pub tier_code : DataTier → ℕ
tier_code DataTier.public = 0
tier_code DataTier.encrypted_at_rest = 1
tier_code DataTier.confidential_tee = 2

abbrev pub tier_eq : DataTier → DataTier → Bool
tier_eq a b = tier_code a == tier_code b

abbrev pub dispute_state_code : DisputeState → ℕ
dispute_state_code DisputeState.opened = 0
dispute_state_code DisputeState.under_review = 1
dispute_state_code DisputeState.upheld = 2
dispute_state_code DisputeState.overturned = 3

abbrev pub dispute_state_eq : DisputeState → DisputeState → Bool
dispute_state_eq a b = dispute_state_code a == dispute_state_code b
