-- ===== src/UsageBilling.antt =====
-- api/app/usage_billing.py: holding, settling and releasing the money of an inference request.
-- The row lock (`SELECT ... FOR UPDATE`) is that an action runs with no other between its steps.
pub mod Effects
pub mod Holds
pub mod Settling
pub mod Requests
mod Tests
use gridix_infra.Models.{LedgerAccount, debit, credit}
use gridix_infra.Ledger.{account_balance, post_transaction, posting, if_positive}
use gridix_infra.Decimal.{round_half_up}
use gridix_infra.Session.{Action, err, pure, insufficient_balance, ok, ◌>>◌, ◌>>=◌, commit}
use gridix_infra.Config.{Settings}
use gridix_infra.Models.Rows.{Uuid, LedgerEntry}
use gridix_infra.Prelude.{List, String, if◌then◌else◌, Option, ◌*◌, suc, some, none, ◌∷◌, []}
use gridix_infra.Prelude.Int.{ℤ, pos, pos_part, ltb_ℤ, leb_ℤ, negsuc, sub_ℕ, ◌-ℤ◌}

-- Half-up to USDC's six decimals: 100 ledger units.
unfoldable pub quantize_usdc : ℤ → ℤ
quantize_usdc (pos n) = pos (round_half_up n 100 * 100)
quantize_usdc (negsuc n) = sub_ℕ 0 (round_half_up (suc n) 100 * 100)

-- `quantize_usdc(cost * bps / 10_000)`, of a cost that is not negative.
unfoldable pub usage_fee : ℤ → Settings → ℤ
usage_fee cost settings =
    pos (round_half_up (pos_part cost * settings.protocol_fee_bps) 1_000_000 * 100)

abbrev pub developer_balance : List LedgerEntry → Uuid → ℤ
developer_balance es dev = account_balance es LedgerAccount.developer (some dev)

-- `if balance < cost: raise InsufficientBalanceError(balance, cost)`
abbrev pub require_balance : Uuid → ℤ → Action (Unit {0})
require_balance dev amount s =
    let balance = developer_balance s.entries dev in
    (if ltb_ℤ balance amount then err (insufficient_balance balance amount) else ok tt, s)

unfoldable pub charge_usage : Uuid → Uuid → ℤ → Settings → Option Uuid → String → Action ℤ
charge_usage dev prov raw settings job_id reason =
    let cost = quantize_usdc raw in
    if leb_ℤ cost (pos 0) then pure (pos 0) else do
      require_balance dev cost
      let fee = usage_fee cost settings
      let earning = cost -ℤ fee
      post_transaction
          (posting LedgerAccount.developer debit cost (some dev)
            ∷ posting LedgerAccount.provider credit earning (some prov)
            ∷ if_positive fee (posting LedgerAccount.protocol credit fee none))
          reason job_id none
      pure cost

unfoldable pub reserve_balance : Uuid → ℤ → Action ℤ
reserve_balance dev raw =
    let amount = quantize_usdc raw in
    if leb_ℤ amount (pos 0) then pure (pos 0) else do
      require_balance dev amount
      post_transaction
          (posting LedgerAccount.developer debit amount (some dev)
            ∷ posting LedgerAccount.escrow credit amount (some dev)
            ∷ [])
          "inference_hold" none none
      commit
      pure amount

unfoldable pub return_hold : Uuid → ℤ → Action (Unit {0})
return_hold dev raw =
    let held = quantize_usdc raw in
    if leb_ℤ held (pos 0) then pure tt else do
      post_transaction
          (posting LedgerAccount.escrow debit held (some dev)
            ∷ posting LedgerAccount.developer credit held (some dev)
            ∷ [])
          "inference_hold_release" none none
      pure tt

unfoldable pub settle_reservation : Uuid → Uuid → ℤ → ℤ → Settings → Action ℤ
settle_reservation dev prov held actual settings = do
  return_hold dev held
  cost ← charge_usage dev prov actual settings none "inference_usage"
  commit
  pure cost

unfoldable pub release_reservation : Uuid → ℤ → Action (Unit {0})
release_reservation dev held = do return_hold dev held; commit

unfoldable pub credit_deposit : Uuid → ℤ → String → Action ℤ
credit_deposit dev raw reason =
    let amount = quantize_usdc raw in
    if leb_ℤ amount (pos 0) then pure (pos 0) else do
      post_transaction
          (posting LedgerAccount.protocol debit amount none
            ∷ posting LedgerAccount.developer credit amount (some dev)
            ∷ [])
          reason none none
      pure amount
