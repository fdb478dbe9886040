-- ===== src/UsageBilling/Settling.antt =====
-- Settling a reservation: it cannot fail on the balance, and what it does to every balance.
use gridix_infra.Models.{LedgerAccount}
use gridix_infra.Prelude.{◌≤◌, none, ◌≡◌, Option, some, ==_refl, ◌∙◌, ap, refl}
use gridix_infra.Session.{saved, Session, ok}
use gridix_infra.Config.{Settings}
use gridix_infra.Models.Rows.{Uuid}
use gridix_infra.Prelude.Int.{ℤ, pos, ◌+ℤ◌, ◌-ℤ◌, ◌≤ℤ◌, int_laws, at_least_zero}
use gridix_infra.UsageBilling.{
  quantize_usdc, usage_fee, settle_reservation, charge_usage, developer_balance,
}
use gridix_infra.UsageBilling.Effects.{Charges, charge_usage_pays}
use gridix_infra.UsageBilling.Holds.{returned, settle_steps}
use gridix_infra.Ledger.{account_balance}
use gridix_infra.Ledger.Balances.{share, Moves-moved}

module _ (dev prov : Uuid) (raw actual : ℤ) (settings : Settings) (s : Session)
    (bps : settings.protocol_fee_bps ≤ 10_000) (solvent : pos 0 ≤ℤ developer_balance s.entries dev)
    (within : quantize_usdc actual ≤ℤ at_least_zero (quantize_usdc raw)) where
  abbrev back : Session
  back = returned dev raw s

  abbrev hold : ℤ
  hold = at_least_zero (quantize_usdc raw)

  abbrev pub bill : ℤ
  bill = at_least_zero (quantize_usdc actual)

  back_balance :
      (c : LedgerAccount) (q : Option Uuid)
      → account_balance back.entries c q
        ≡ account_balance s.entries c q
          -ℤ share c q LedgerAccount.escrow (some dev) hold
          +ℤ share c q LedgerAccount.developer (some dev) hold
  back_balance =
      Moves-moved LedgerAccount.escrow (some dev) LedgerAccount.developer (some dev)
        (quantize_usdc raw) "inference_hold_release" none none s

  affordable : quantize_usdc actual ≤ℤ developer_balance back.entries dev
  affordable =
      rw (back_balance LedgerAccount.developer (some dev)) (rw (==_refl dev) (omega int_laws))

  charged :
      ((charge_usage dev prov actual settings none "inference_usage" back).0 ≡ ok bill)
      × Charges dev prov actual settings none "inference_usage" back bill
          (charge_usage dev prov actual settings none "inference_usage" back).1
  charged = charge_usage_pays dev prov actual settings none "inference_usage" back bps affordable

  abbrev pub after : Session
  after = saved (charge_usage dev prov actual settings none "inference_usage" back).1

  pub settle_reservation_lem : settle_reservation dev prov raw actual settings s ≡ (ok bill, after)
  settle_reservation_lem =
      settle_steps dev raw s prov actual settings bill _
        (λ i. (charged.0 i, (charge_usage dev prov actual settings none "inference_usage" back).1))

  -- With a balance that is not negative and a bill that the hold covers, settling never raises: it
  -- returns the quantized bill. The hold leaves the escrow, the bill leaves the developer's money,
  -- the fee reaches the protocol and the rest the provider, and no other balance changes.
  pub settle_reservation_pays :
      ((settle_reservation dev prov raw actual settings s).0 ≡ ok bill)
      × ((c : LedgerAccount) (q : Option Uuid)
          → account_balance (settle_reservation dev prov raw actual settings s).1.entries c q
            ≡ account_balance s.entries c q
              -ℤ share c q LedgerAccount.escrow (some dev) hold
              +ℤ share c q LedgerAccount.developer (some dev) hold
              -ℤ share c q LedgerAccount.developer (some dev) bill
              +ℤ (share c q LedgerAccount.provider
                    (some prov)
                    (bill -ℤ usage_fee (quantize_usdc actual) settings)
                  +ℤ share c q LedgerAccount.protocol none
                      (usage_fee (quantize_usdc actual) settings)))
  settle_reservation_pays = rw settle_reservation_lem (
    refl,
    λ c q.
        charged.1 c q
        ∙ ap
            (λ (x : ℤ).
              x
              -ℤ share c q LedgerAccount.developer (some dev) bill
              +ℤ (share c q LedgerAccount.provider (some prov)
                    (bill -ℤ usage_fee (quantize_usdc actual) settings)
                  +ℤ share c q LedgerAccount.protocol none
                      (usage_fee (quantize_usdc actual) settings)))
            (back_balance c q),
  )
