-- ===== src/Payments.antt =====
-- api/app/payments.py: the payment provider interface, and the fiat stub that fills it.
pub mod Effects
mod Tests
use gridix_infra.Prelude.{List, if◌then◌else◌, ◌∷◌, some, [], ◌++◌, none}
use gridix_infra.Models.Rows.{Uuid}
use gridix_infra.Prelude.Int.{ℤ, ◌-ℤ◌, leb_ℤ, ltb_ℤ, pos}
use gridix_infra.Ledger.{posting, post_transaction, Posting, if_positive}
use gridix_infra.Models.{debit, credit, LedgerAccount}
use gridix_infra.Session.{Action, pure, ◌>>=◌, ◌>>◌}

-- `class PaymentProvider(ABC)`: job, developer, provider, cost and fee, in this order.
pub record PaymentProvider : Type 0 where
  pub hold_escrow : Uuid → Uuid → ℤ → Action (Unit {0})
  pub settle : Uuid → Uuid → Uuid → ℤ → ℤ → Action (Unit {0})
  pub refund : Uuid → Uuid → ℤ → Action (Unit {0})

unfoldable pub hold_escrow : Uuid → Uuid → ℤ → Action (Unit {0})
hold_escrow job dev amount = if leb_ℤ amount (pos 0) then pure tt else do
  post_transaction
      (posting LedgerAccount.developer debit amount (some dev)
        ∷ posting LedgerAccount.escrow credit amount (some dev)
        ∷ [])
      "escrow_hold" (some job) none
  pure tt

unfoldable pub settle : Uuid → Uuid → Uuid → ℤ → ℤ → Action (Unit {0})
settle job dev prov cost fee = if leb_ℤ cost (pos 0) then pure tt else do
  let net = cost -ℤ fee
  post_transaction
      (posting LedgerAccount.escrow debit cost (some dev)
        ∷ (if_positive net (posting LedgerAccount.provider credit net (some prov))
            ++ if_positive fee (posting LedgerAccount.protocol credit fee none)))
      "settle" (some job) none
  pure tt

unfoldable pub refund : Uuid → Uuid → ℤ → Action (Unit {0})
refund job dev amount = if leb_ℤ amount (pos 0) then pure tt else do
  post_transaction
      (posting LedgerAccount.escrow debit amount (some dev)
        ∷ posting LedgerAccount.developer credit amount (some dev)
        ∷ [])
      "refund" (some job) none
  pure tt

-- `class FiatStub`
abbrev pub fiat_stub : PaymentProvider
fiat_stub = record { hold_escrow = hold_escrow; settle = settle; refund = refund }
