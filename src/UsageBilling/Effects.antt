-- ===== src/UsageBilling/Effects.antt =====
-- What each billing method returns or raises, and the session that it leaves.
use gridix_infra.Ledger.Balances.{share-zero, share, debit_row, credit_row}
use gridix_infra.Ledger.Sums.{balance-append}
use gridix_infra.Models.{LedgerAccount, debit, credit}
use gridix_infra.Session.{Session, ok, err, insufficient_balance}
use gridix_infra.Models.Rows.{Uuid}
use gridix_infra.Config.{Settings}
use gridix_infra.Decimal.{round_half_up, round_half_up-le}
use gridix_infra.Prelude.{
  ℕ, ◌≡◌, ◌*◌, false, ◌≤◌, arith, ◌<◌, refl, suc, Option, String, List, true, some, ◌∷◌, none, any,
  Bool-cases, inr, inl, [], ap,
}
use native.Mathlib.Nat.{mul-le-mul_left}
use gridix_infra.Prelude.Int.{
  ℤ, pos, ◌-ℤ◌, ◌≤ℤ◌, int_tests, sub_nonneg, leb_ℤ, negsuc, sub_ℕ, ltb_ℤ, nonneg→ltb, pos_part,
  at_least_zero, zero_less_zero, at_least_zero_nonpos, ◌+ℤ◌, int_laws, ge→ltb_ℤ, at_least_zero_pos,
  at_least_zero_nonneg,
}
use gridix_infra.UsageBilling.{quantize_usdc, usage_fee, charge_usage, developer_balance}
use gridix_infra.Ledger.{posting, if_positive, Posting, posting_sum, is_negative, account_balance}
use gridix_infra.Ledger.Posted.{posted, post_transaction_accepts, rows, balance-if_positive}

-- What is not negative is quantized to whole micro-dollars, and stays so.
pub quantize_pos : (n : ℕ) → quantize_usdc (pos n) ≡ pos (round_half_up n 100 * 100)
unfolding quantize_usdc
quantize_pos n = refl

round_multiple : (k : ℕ) → round_half_up (k * 100) 100 ≡ k
unfolding round_half_up
round_multiple k = omega arith

-- An amount that survives the test for a charge is a positive number of micro-dollars.
quantize_positive :
    (raw : ℤ)
    → leb_ℤ (quantize_usdc raw) (pos 0) ≡ false
    → (k : ℕ) × (quantize_usdc raw ≡ pos (k * 100)) × (0 < k)
unfolding quantize_usdc
quantize_positive (pos n) h = (round_half_up n 100, refl, ground arith)
quantize_positive (negsuc n) h = absurd (ground arith)

negative_idem : (k : ℕ) → quantize_usdc (sub_ℕ 0 (k * 100)) ≡ sub_ℕ 0 (k * 100)
unfolding quantize_usdc round_half_up
negative_idem k = ground arith

-- Quantizing twice is quantizing once.
pub quantize_idem : (raw : ℤ) → quantize_usdc (quantize_usdc raw) ≡ quantize_usdc raw
unfolding quantize_usdc
quantize_idem (pos n) = rw (round_multiple (round_half_up n 100))
quantize_idem (negsuc n) = negative_idem (round_half_up (suc n) 100)

module _ (settings : Settings) (bps : settings.protocol_fee_bps ≤ 10_000) where
  pub usage_fee_bounds :
      (k : ℕ)
      → (pos 0 ≤ℤ usage_fee (pos (k * 100)) settings)
        × (usage_fee (pos (k * 100)) settings ≤ℤ pos (k * 100))
  unfolding usage_fee
  usage_fee_bounds k =
      let part : k * 100 * settings.protocol_fee_bps ≤ k * 1_000_000 =
        omega (arith, mul-le-mul_left (k * 100) bps) in
      let le : round_half_up (k * 100 * settings.protocol_fee_bps) 1_000_000 ≤ k =
        round_half_up-le (k * 100 * settings.protocol_fee_bps) 1_000_000 k (omega arith) part in
      (omega arith, omega (arith, le))

module _ (dev prov : Uuid) (raw : ℤ) (settings : Settings) (job_id : Option Uuid) (reason : String)
    (s : Session) where
  abbrev cost : ℤ
  cost = quantize_usdc raw

  abbrev fee : ℤ
  fee = usage_fee cost settings

  abbrev pub charge_legs : List Posting
  charge_legs =
      posting LedgerAccount.provider credit (cost -ℤ fee) (some prov)
      ∷ if_positive fee (posting LedgerAccount.protocol credit fee none)

  abbrev pub developer_leg : Posting
  developer_leg = posting LedgerAccount.developer debit cost (some dev)

  charge_free :
      leb_ℤ cost (pos 0) ≡ true
      → charge_usage dev prov raw settings job_id reason s ≡ (ok (pos 0), s)
  unfolding charge_usage
  charge_free h = rw h

  pub charge_poor :
      leb_ℤ cost (pos 0) ≡ false
      → ltb_ℤ (developer_balance s.entries dev) cost ≡ true
      → charge_usage dev prov raw settings job_id reason s
        ≡ (err (insufficient_balance (developer_balance s.entries dev) cost), s)
  unfolding charge_usage
  charge_poor h poor = ground arith

  charge_sums :
      pos 0 ≤ℤ fee
      → fee ≤ℤ cost
      → (posting_sum debit (developer_leg ∷ charge_legs)
          ≡ posting_sum credit (developer_leg ∷ charge_legs))
        × (any is_negative (developer_leg ∷ charge_legs) ≡ false)
  charge_sums f le =
      let whole : pos 0 ≤ℤ cost = omega arith in
      let left = sub_nonneg cost fee le in
      elim (Bool-cases (ltb_ℤ (pos 0) fee)) [
        | inl cut ↦ rw cut (
          omega int_tests,
          ground (arith, nonneg→ltb cost whole, nonneg→ltb fee f, nonneg→ltb (cost -ℤ fee) left),
        )
        | inr free ↦
            rw free (
              omega int_tests,
              ground (arith, nonneg→ltb cost whole, nonneg→ltb (cost -ℤ fee) left),
            )
      ]

  charge_posted :
      leb_ℤ cost (pos 0) ≡ false
      → ltb_ℤ (developer_balance s.entries dev) cost ≡ false
      → pos 0 ≤ℤ fee
      → fee ≤ℤ cost
      → charge_usage dev prov raw settings job_id reason s
        ≡ (ok cost, posted reason job_id none (developer_leg ∷ charge_legs) s)
  unfolding charge_usage
  charge_posted p rich f le =
      let sums = charge_sums f le in
      let h =
        post_transaction_accepts reason job_id none developer_leg charge_legs s sums.0 sums.1 in
      ground (arith, h)

  -- Every balance after a charge: the developer pays, the provider and the protocol get it.
  abbrev pub Charges : ℤ → Session → Type 0
  Charges x s' =
      (c : LedgerAccount) (q : Option Uuid)
      → account_balance s'.entries c q
        ≡ account_balance s.entries c q
          -ℤ share c q LedgerAccount.developer (some dev) x
          +ℤ (share c q LedgerAccount.provider (some prov) (x -ℤ fee)
              +ℤ share c q LedgerAccount.protocol none fee)

  Charges-posted :
      pos 0 ≤ℤ fee → Charges cost (posted reason job_id none (developer_leg ∷ charge_legs) s)
  Charges-posted f c q =
      let n = s.next_uuid in
      let earning = posting LedgerAccount.provider credit (cost -ℤ fee) (some prov) in
      rw
        (
          balance-append s.entries _ c q,
          balance-append (rows reason job_id none n (developer_leg ∷ [])) _ c q,
          balance-append (rows reason job_id none n (earning ∷ [])) _ c q,
          debit_row n job_id reason none LedgerAccount.developer (some dev) cost c q,
          credit_row n job_id reason none LedgerAccount.provider (some prov) (cost -ℤ fee) c q,
          balance-if_positive reason job_id none n fee LedgerAccount.protocol none c q,
          at_least_zero_nonneg fee f,
        )
        (omega int_laws)

  fee_free : leb_ℤ cost (pos 0) ≡ true → fee ≡ pos 0
  unfolding usage_fee round_half_up
  fee_free h = let none_due : pos_part cost ≡ 0 = ground arith in rw none_due (ap pos (omega arith))

  Charges-zero : leb_ℤ cost (pos 0) ≡ true → Charges (pos 0) s
  Charges-zero h c q = rw (fee_free h) (
      rw
        (
          share-zero c LedgerAccount.developer q (some dev),
          share-zero c LedgerAccount.protocol q none,
        )
        (rw (zero_less_zero)
          (rw (share-zero c LedgerAccount.provider q (some prov)) (omega int_laws))))

  -- A charge within the balance never raises: it returns the quantized cost (0 if that is not
  -- positive) and moves exactly that out of the developer's balance, the quantized fee to the
  -- protocol and the remainder to the provider. No other balance changes.
  pub charge_usage_pays :
      settings.protocol_fee_bps ≤ 10_000
      → cost ≤ℤ developer_balance s.entries dev
      → ((charge_usage dev prov raw settings job_id reason s).0 ≡ ok (at_least_zero cost))
        × Charges (at_least_zero cost) (charge_usage dev prov raw settings job_id reason s).1
  charge_usage_pays bps rich = elim (Bool-cases (leb_ℤ cost (pos 0))) [
    | inl nothing ↦
        rw (charge_free nothing, at_least_zero_nonpos cost nothing) (refl, Charges-zero nothing)
    | inr due ↦
        let (k, e, _) = quantize_positive raw due in
        let bounds = usage_fee_bounds settings bps k in
        let f : pos 0 ≤ℤ fee = rw e bounds.0 in
        let le : fee ≤ℤ cost = rw e bounds.1 in
        rw
          (
            charge_posted due (ge→ltb_ℤ (developer_balance s.entries dev) cost rich) f le,
            at_least_zero_pos cost due,
          )
          (refl, Charges-posted f)
  ]
