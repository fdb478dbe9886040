-- ===== src/Models.antt =====
-- The rows of api/app/models.py that the modelled operations read or write, and their enums.
-- UUIDs are numbers, which are only compared. A timestamp is a number of microseconds.
-- Amounts of money (Numeric(20, 8) columns, Python's Decimal) are integers, in units of
-- 0.00000001 USD. Reputation scores are integers, in half points: every delta is one.
mod Enums
pub mod Rows
pub mod Samples
pub use Enums.{
  JobStatus, JobKind, AttemptOutcome, LedgerDirection, debit, credit, LedgerAccount, DisputeState,
  ReputationKind, DataTier,
}
unfoldable pub use Enums.{
  account_eq, direction_eq, status_eq, outcome_eq, kind_eq, tier_eq, dispute_state_eq,
}
