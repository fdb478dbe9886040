-- ===== src/Results/Settlement.antt =====
-- The steps of a job's settlement, with the fiat payments: costs and moves.
use gridix_infra.Prelude.{ℕ, ◌≤◌, none, some, ◌≡◌, refl, arith, leb, Bool-cases, inl, inr, leb→le}
use gridix_infra.Prelude.Int.{pos, at_least_zero_nonneg}
use mathlib.Core.Path.{subst}
use gridix_infra.Models.{LedgerAccount}
use gridix_infra.Models.Rows.{Job}
use gridix_infra.Config.{Settings}
use gridix_infra.Session.{Session, ok}
use gridix_infra.Ledger.Balances.{Moves, Moves-zero, moved, Moves-moved, post-legs_pos}
use gridix_infra.Payments.{fiat_stub, refund}
use gridix_infra.Payments.Effects.{refund-Moves}
use gridix_infra.Pricing.{protocol_fee}
use gridix_infra.Pricing.Bounds.{protocol_fee_bounds}
use gridix_infra.Results.{cost_of, refund_remainder, charge_data}

module _ (settings : Settings) (job : Job) (escrow : ℕ) (s : Session) where
  pub cost_of-le : cost_of settings job escrow ≤ escrow
  cost_of-le = ground arith

  pub fee-le :
      settings.protocol_fee_bps ≤ 10_000
      → protocol_fee (cost_of settings job escrow) settings ≤ cost_of settings job escrow
  fee-le h =
      (protocol_fee_bounds (cost_of settings job escrow) (cost_of settings job escrow) settings h
        (omega arith)).0

module _ (job : Job) (x : ℕ) (s : Session) where
  pub refund-Moves_all :
      ((refund job.id job.developer_id (pos x) s).0 ≡ ok tt)
      × Moves LedgerAccount.escrow
          (some job.developer_id)
          LedgerAccount.developer
          (some job.developer_id)
          (pos x)
          s
          (refund job.id job.developer_id (pos x) s).1
  refund-Moves_all =
      subst
        (λ y.
          ((refund job.id job.developer_id (pos x) s).0 ≡ ok tt)
          × Moves LedgerAccount.escrow (some job.developer_id) LedgerAccount.developer
              (some job.developer_id) y s (refund job.id job.developer_id (pos x) s).1)
        (at_least_zero_nonneg (pos x) (omega arith))
        (refund-Moves job.id job.developer_id (pos x) s)

  pub refund_remainder-Moves :
      ((refund_remainder fiat_stub job x s).0 ≡ ok tt)
      × Moves LedgerAccount.escrow
          (some job.developer_id)
          LedgerAccount.developer
          (some job.developer_id)
          (pos x)
          s
          (refund_remainder fiat_stub job x s).1
  unfolding refund_remainder
  refund_remainder-Moves = elim (Bool-cases (leb x 0)) [
    | inl e ↦
        let nothing : 0 ≡ x = omega (arith, leb→le x 0 e) in
        rw e (
          refl,
          subst
              (λ y.
                Moves LedgerAccount.escrow (some job.developer_id) LedgerAccount.developer
                  (some job.developer_id) (pos y) s s)
              nothing
              (Moves-zero LedgerAccount.escrow LedgerAccount.developer (some job.developer_id)
                (some job.developer_id) s),
        )
    | inr e ↦ rw e refund-Moves_all
  ]

  charge_data_lem : charge_data job x s ≡ (
    ok tt,
    moved LedgerAccount.developer
        (some job.developer_id)
        LedgerAccount.protocol
        none
        (pos x)
        "data_cost"
        (some job.id)
        none
        s,
  )
  unfolding charge_data
  charge_data_lem = ground (
    arith,
    post-legs_pos LedgerAccount.developer (some job.developer_id) LedgerAccount.protocol none
        (pos x) "data_cost" (some job.id) none s,
  )

  pub charge_data-Moves :
      ((charge_data job x s).0 ≡ ok tt)
      × Moves LedgerAccount.developer
          (some job.developer_id)
          LedgerAccount.protocol
          none
          (pos x)
          s
          (charge_data job x s).1
  charge_data-Moves = rw charge_data_lem (
    refl,
    subst
        (λ y.
          Moves LedgerAccount.developer (some job.developer_id) LedgerAccount.protocol none y s (
            moved LedgerAccount.developer (some job.developer_id) LedgerAccount.protocol none
              (pos x) "data_cost" (some job.id) none s))
        (at_least_zero_nonneg (pos x) (omega arith))
        (Moves-moved LedgerAccount.developer (some job.developer_id) LedgerAccount.protocol none
          (pos x) "data_cost" (some job.id) none s),
  )
