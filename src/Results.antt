-- ===== src/Results.antt =====
-- api/app/results.py: the outcome of a job's attempts, and the settlement of its escrow.
pub mod Settlement
pub mod Outcomes
pub mod Slashing
pub mod Finalize
pub mod Decisions
pub mod Payout
pub mod Recording
pub mod Returns
pub mod Hashable
pub mod Deciding
mod Tests
use gridix_infra.Prelude.{
  ℕ, Bool, true, false, ◌&&◌, ◌||◌, ◌+◌, ◌-◌, ◌*◌, Option, none, some, [], ◌∷◌, if◌then◌else◌, ltb,
  leb, is_some,
}
use gridix_infra.Prelude.Int.{ℤ, pos}
use gridix_infra.Models.{
  JobKind, JobStatus, LedgerAccount, AttemptOutcome, ReputationKind, debit, credit, kind_eq,
  status_eq,
}
use gridix_infra.Models.Rows.{Job, Uuid}
use gridix_infra.Config.{Settings, second}
use gridix_infra.Session.{Action, pure, ◌>>=◌, ◌>>◌}
use gridix_infra.Ledger.{posting, post_transaction}
use gridix_infra.Payments.{PaymentProvider}
use gridix_infra.Pricing.{compute_cost, data_cost, protocol_fee}

-- `_duration_seconds`, in microseconds: the run's time, never below 0, or the whole budget.
abbrev pub duration : Job → ℕ
duration job = elim job.started_at [
  | none ↦ job.timeout_seconds * second
  | some started ↦ elim job.finished_at [
    | none ↦ job.timeout_seconds * second
    | some finished ↦ finished - started
  ]
]

-- What the developer pays for the run: at most what is in escrow.
abbrev pub cost_of : Settings → Job → ℕ → ℕ
cost_of settings job escrow =
    let cost = compute_cost job.resource_spec (duration job) settings in
    if ltb escrow cost then escrow else cost

unfoldable pub refund_remainder : PaymentProvider → Job → ℕ → Action (Unit {0})
refund_remainder payment job remainder =
    if leb remainder 0 then pure tt else payment.refund job.id job.developer_id (pos remainder)

-- The charge for the data moved, apart from the escrow.
unfoldable pub charge_data : Job → ℕ → Action (Unit {0})
charge_data job dcost = if leb dcost 0 then pure tt else do
  post_transaction
      (posting LedgerAccount.developer debit (pos dcost) (some job.developer_id)
        ∷ posting LedgerAccount.protocol credit (pos dcost) none
        ∷ [])
      "data_cost" (some job.id) none
  pure tt

unfoldable pub settle_completed : PaymentProvider → Settings → ℕ → Job → ℕ → Uuid → Action Job
settle_completed payment settings num_bytes job escrow winner = do
  let cost = cost_of settings job escrow
  let dcost = data_cost num_bytes settings
  payment.settle job.id job.developer_id winner (pos cost) (pos (protocol_fee cost settings))
  refund_remainder payment job (escrow - cost)
  charge_data job dcost
  pure (record job { cost_final = some (cost + dcost) })

unfoldable pub refund_all : PaymentProvider → Job → ℕ → Action Job
refund_all payment job escrow = do
  payment.refund job.id job.developer_id (pos escrow)
  pure (record job { cost_final = some 0 })

abbrev pub settle_escrow : PaymentProvider → Settings → ℕ → Job → ℕ → Option Uuid → Action Job
settle_escrow payment settings num_bytes job escrow none = refund_all payment job escrow
settle_escrow payment settings num_bytes job escrow (some winner) =
    if status_eq job.status JobStatus.completed
    then settle_completed payment settings num_bytes job escrow winner
    else refund_all payment job escrow

abbrev pub settle_held : PaymentProvider → Settings → ℕ → Job → Option Uuid → Option ℕ → Action Job
settle_held payment settings num_bytes job winner none = pure job
settle_held payment settings num_bytes job winner (some escrow) =
    settle_escrow payment settings num_bytes job escrow winner

-- `_settle`: `num_bytes` is what `job_bytes` finds, and `winner` the winning provider's id.
unfoldable pub settle_job : PaymentProvider → Settings → ℕ → Job → Option Uuid → Action Job
settle_job payment settings num_bytes job winner =
    if kind_eq job.kind JobKind.canary
    then pure job
    else settle_held payment settings num_bytes job winner job.escrow_amount
