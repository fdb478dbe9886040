-- ===== src/Results/Payout.antt =====
-- What the settlement of a job does to every balance, with the fiat payments.
use gridix_infra.Prelude.{
  ℕ, false, ◌+◌, ◌-◌, ◌≤◌, Option, none, some, ◌≡◌, refl, ap, ◌∙◌, arith, Bool-cases, inl, inr,
  ◌&&◌, ◌⊎◌, if◌then◌else◌, true,
}
use gridix_infra.Prelude.Int.{pos, ◌+ℤ◌, ◌-ℤ◌, int_laws}
use gridix_infra.Models.{JobKind, JobStatus, LedgerAccount, kind_eq, status_eq, account_eq}
use gridix_infra.Models.Rows.{Job, Uuid}
use gridix_infra.Config.{Settings}
use gridix_infra.Session.{Session, ok, then_ok, pure, ◌>>◌}
use gridix_infra.Ledger.{account_balance, in_scope}
use gridix_infra.Ledger.Balances.{Moves, share}
use gridix_infra.Payments.{fiat_stub, settle, refund}
use gridix_infra.Payments.Effects.{settle_moves}
use gridix_infra.Pricing.{data_cost, protocol_fee}
use gridix_infra.Results.{
  cost_of, refund_remainder, charge_data, settle_completed, refund_all, settle_job, settle_escrow,
  settle_held,
}
use gridix_infra.Results.Settlement.{
  cost_of-le, fee-le, charge_data-Moves, refund-Moves_all, refund_remainder-Moves,
}

-- Every balance after a completed job's settlement: the escrow is emptied of the job's amount, the
-- provider gets the cost less the fee, the protocol the fee and the data charge, and the developer
-- the remainder less the data charge.
abbrev pub IsPaidOut : Job → Uuid → ℕ → ℕ → ℕ → ℕ → Session → Session → Type 0
IsPaidOut job winner escrow cost fee dcost s s' =
    (c : LedgerAccount) (q : Option Uuid)
    → account_balance s'.entries c q
      ≡ account_balance s.entries c q
        -ℤ share c q LedgerAccount.escrow (some job.developer_id) (pos escrow)
        +ℤ share c q LedgerAccount.provider (some winner) (pos cost -ℤ pos fee)
        +ℤ share c q LedgerAccount.protocol none (pos fee)
        +ℤ share c q LedgerAccount.developer (some job.developer_id) (pos (escrow - cost))
        -ℤ share c q LedgerAccount.developer (some job.developer_id) (pos dcost)
        +ℤ share c q LedgerAccount.protocol none (pos dcost)

-- The parts of an amount are shared out as the amount is.
share-split :
    (c a : LedgerAccount) (q r : Option Uuid) (x y : ℕ)
    → y ≤ x
    → share c q a r (pos x) ≡ share c q a r (pos y) +ℤ share c q a r (pos (x - y))
share-split c a q r x y le = elim (Bool-cases (account_eq a c && in_scope q r)) [
  | inl e ↦ rw e (omega int_laws)
  | inr e ↦ rw e (omega int_laws)
]

module _ (settings : Settings) (num_bytes : ℕ) (job : Job) (escrow : ℕ) (winner : Uuid)
    (s : Session) where
  abbrev pub cost : ℕ
  cost = cost_of settings job escrow

  abbrev pub fee : ℕ
  fee = protocol_fee cost settings

  abbrev settled : Session
  settled = (settle job.id job.developer_id winner (pos cost) (pos fee) s).1

  abbrev refunded : Session
  refunded = (refund_remainder fiat_stub job (escrow - cost) settled).1

  settle_completed_lem :
      settings.protocol_fee_bps ≤ 10_000
      → settle_completed fiat_stub settings num_bytes job escrow winner s ≡ (
        ok (record job { cost_final = some (cost + data_cost num_bytes settings) }),
        (charge_data job (data_cost num_bytes settings) refunded).1,
      )
  unfolding settle_completed
  settle_completed_lem h =
      let dcost = data_cost num_bytes settings in
      let last = pure (record job { cost_final = some (cost + dcost) }) in
      then_ok (settle job.id job.developer_id winner (pos cost) (pos fee))
        (λ _. refund_remainder fiat_stub job (escrow - cost) >> (charge_data job dcost >> last)) tt
        s
        (settle_moves job.id job.developer_id winner (pos cost) (pos fee) s (omega arith)
          (omega (arith, fee-le settings job escrow s h))).0
      ∙ then_ok (refund_remainder fiat_stub job (escrow - cost))
          (λ _. charge_data job dcost >> last) tt settled
          (refund_remainder-Moves job (escrow - cost) settled).0
      ∙ then_ok (charge_data job dcost) (λ _. last) tt refunded
          (charge_data-Moves job dcost refunded).0

  settle_completed_pays :
      settings.protocol_fee_bps ≤ 10_000
      → (cost ≤ escrow)
        × ((settle_completed fiat_stub settings num_bytes job escrow winner s).0
            ≡ ok (record job { cost_final = some (cost + data_cost num_bytes settings) }))
        × IsPaidOut job winner escrow cost fee
            (data_cost num_bytes settings)
            s
            (settle_completed fiat_stub settings num_bytes job escrow winner s).1
  settle_completed_pays h = rw (settle_completed_lem h) (
    cost_of-le settings job escrow s,
    refl,
    λ c q.
        rw
          (
            (charge_data-Moves job (data_cost num_bytes settings) refunded).1 c q,
            (refund_remainder-Moves job (escrow - cost) settled).1 c q,
            (settle_moves job.id job.developer_id winner (pos cost) (pos fee) s (omega arith)
                  (omega (arith, fee-le settings job escrow s h))).1
                c q,
            share-split c LedgerAccount.escrow q (some job.developer_id) escrow cost
                (cost_of-le settings job escrow s),
          )
          (omega int_laws),
  )

  settle_escrow-refund_all :
      (w : Option Uuid)
      → (w ≡ none) ⊎ (status_eq job.status JobStatus.completed ≡ false)
      → settle_escrow fiat_stub settings num_bytes job escrow w s
        ≡ (do
          refund job.id job.developer_id (pos escrow)
          pure (record job { cost_final = some 0 }))
            s
  unfolding refund_all
  settle_escrow-refund_all none lost = refl
  settle_escrow-refund_all (some x) (inl e) = absurd (ground (arith, e))
  settle_escrow-refund_all (some x) (inr pending) =
      ap
        (λ b.
          (if b
              then settle_completed fiat_stub settings num_bytes job escrow x
              else refund_all fiat_stub job escrow)
            s)
        pending

  settle_job-refund_all :
      kind_eq job.kind JobKind.canary ≡ false
      → job.escrow_amount ≡ some escrow
      → (w : Option Uuid) → (w ≡ none) ⊎ (status_eq job.status JobStatus.completed ≡ false)
      → settle_job fiat_stub settings num_bytes job w s
        ≡ (do
          refund job.id job.developer_id (pos escrow)
          pure (record job { cost_final = some 0 }))
            s
  unfolding settle_job
  settle_job-refund_all billed held w lost =
      ap
        (λ b.
          (if b then pure job else settle_held fiat_stub settings num_bytes job w job.escrow_amount)
            s)
        billed
      ∙ ap (λ e. settle_held fiat_stub settings num_bytes job w e s) held
      ∙ settle_escrow-refund_all w lost

  settle_job-settle_completed :
      kind_eq job.kind JobKind.canary ≡ false
      → job.escrow_amount ≡ some escrow
      → status_eq job.status JobStatus.completed ≡ true
      → settle_job fiat_stub settings num_bytes job (some winner) s
        ≡ settle_completed fiat_stub settings num_bytes job escrow winner s
  unfolding settle_job
  settle_job-settle_completed billed held done =
      ap
        (λ b.
          (if b
              then pure job
              else settle_held fiat_stub settings num_bytes job (some winner) job.escrow_amount)
            s)
        billed
      ∙ ap (λ e. settle_held fiat_stub settings num_bytes job (some winner) e s) held
      ∙ ap
          (λ b.
            (if b
                then settle_completed fiat_stub settings num_bytes job escrow winner
                else refund_all fiat_stub job escrow)
              s)
          done

  -- With at most 10,000 basis points of fee, the settlement of a completed, billed job with a
  -- winner never raises. The developer's final cost is the run's cost, at most the escrow, and the
  -- data charge. The escrow is emptied of just the job's amount, the provider gets the cost less
  -- the fee, the protocol the fee and the data charge, and the developer the remainder less the
  -- data charge. No other balance changes.
  pub settle_job_pays :
      settings.protocol_fee_bps ≤ 10_000
      → kind_eq job.kind JobKind.canary ≡ false
      → job.escrow_amount ≡ some escrow
      → status_eq job.status JobStatus.completed ≡ true
      → (cost ≤ escrow)
        × ((settle_job fiat_stub settings num_bytes job (some winner) s).0
            ≡ ok (record job { cost_final = some (cost + data_cost num_bytes settings) }))
        × IsPaidOut job winner escrow cost fee
            (data_cost num_bytes settings)
            s
            (settle_job fiat_stub settings num_bytes job (some winner) s).1
  settle_job_pays h billed held done =
      rw (settle_job-settle_completed billed held done) (settle_completed_pays h)

  -- A job that is billed but is not completed, or has no winner, is refunded: settling never raises,
  -- moves just the escrowed amount back to the developer, pays nobody, and the final cost is 0.
  pub settle_job_refunds :
      kind_eq job.kind JobKind.canary ≡ false
      → job.escrow_amount ≡ some escrow
      → (w : Option Uuid) → (w ≡ none) ⊎ (status_eq job.status JobStatus.completed ≡ false)
      → ((settle_job fiat_stub settings num_bytes job w s).0
          ≡ ok (record job { cost_final = some 0 }))
        × Moves LedgerAccount.escrow
            (some job.developer_id)
            LedgerAccount.developer
            (some job.developer_id)
            (pos escrow)
            s
            (settle_job fiat_stub settings num_bytes job w s).1
  settle_job_refunds billed held w lost = rw (settle_job-refund_all billed held w lost) (
      rw
        (then_ok (refund job.id job.developer_id (pos escrow))
          (λ _. pure (record job { cost_final = some 0 })) tt s (refund-Moves_all job escrow s).0)
        (refl, (refund-Moves_all job escrow s).1))
