-- ===== src/Payments/Effects.antt =====
-- What the fiat stub's methods do to every balance, and when settling is refused.
use gridix_infra.Models.{LedgerAccount, debit, credit}
use gridix_infra.Prelude.{
  List, ◌≡◌, some, Option, ◌∷◌, ◌++◌, none, any, false, arith, refl, Bool-cases, inr, inl, [], ap,
  true,
}
use gridix_infra.Session.{Session, ok, Result, err}
use gridix_infra.Models.Rows.{Uuid}
use gridix_infra.Prelude.Int.{
  ℤ, pos, ◌+ℤ◌, ◌-ℤ◌, ◌≤ℤ◌, int_laws, at_least_zero, leb_ℤ, ltb_ℤ, int_tests, sub_nonneg,
  leb_ℤ→nonneg, nonneg→ltb, at_least_zero_nonneg,
}
use gridix_infra.Ledger.{account_balance, posting_sum, posting, if_positive, is_negative, Posting}
use gridix_infra.Ledger.Sums.{balance-append}
use gridix_infra.Ledger.Balances.{
  share, moved, Moves, Moves-moved, post-legs_pos, debit_row, share-zero,
}
use gridix_infra.Ledger.Posted.{
  rows, posted, post_transaction_accepts, balance-posted, balance-if_positive,
}
use gridix_infra.Payments.{hold_escrow, settle, refund}

module _ (job dev : Uuid) (amount : ℤ) (s : Session) where
  hold_escrow_lem : hold_escrow job dev amount s ≡ (
    ok tt,
    moved LedgerAccount.developer
        (some dev)
        LedgerAccount.escrow
        (some dev)
        amount
        "escrow_hold"
        (some job)
        none
        s,
  )
  unfolding hold_escrow
  hold_escrow_lem = ground (
    arith,
    post-legs_pos LedgerAccount.developer (some dev) LedgerAccount.escrow (some dev) amount
        "escrow_hold" (some job) none s,
  )

  -- Holding escrow never raises. It moves the amount, or nothing if that is negative, from the
  -- developer's balance to their escrow and changes no other balance.
  pub hold_escrow-Moves :
      ((hold_escrow job dev amount s).0 ≡ ok tt)
      × Moves LedgerAccount.developer
          (some dev)
          LedgerAccount.escrow
          (some dev)
          (at_least_zero amount)
          s
          (hold_escrow job dev amount s).1
  hold_escrow-Moves = rw hold_escrow_lem (refl, Moves-moved _ _ _ _ amount _ _ _ s)

  refund_lem : refund job dev amount s ≡ (
    ok tt,
    moved LedgerAccount.escrow
        (some dev)
        LedgerAccount.developer
        (some dev)
        amount
        "refund"
        (some job)
        none
        s,
  )
  unfolding refund
  refund_lem = ground (
    arith,
    post-legs_pos LedgerAccount.escrow (some dev) LedgerAccount.developer (some dev) amount "refund"
        (some job) none s,
  )

  pub refund-Moves :
      ((refund job dev amount s).0 ≡ ok tt)
      × Moves LedgerAccount.escrow
          (some dev)
          LedgerAccount.developer
          (some dev)
          (at_least_zero amount)
          s
          (refund job dev amount s).1
  refund-Moves = rw refund_lem (refl, Moves-moved _ _ _ _ amount _ _ _ s)

module _ (job dev prov : Uuid) (cost fee : ℤ) where
  abbrev legs_of_settle : List Posting
  legs_of_settle =
      if_positive (cost -ℤ fee) (posting LedgerAccount.provider credit (cost -ℤ fee) (some prov))
      ++ if_positive fee (posting LedgerAccount.protocol credit fee none)

  abbrev escrow_leg : Posting
  escrow_leg = posting LedgerAccount.escrow debit cost (some dev)

  -- Every balance after a settlement: escrow pays the cost, the provider and the protocol get it.
  abbrev pub Settles : Session → Session → Type 0
  Settles s s' =
      (c : LedgerAccount) (q : Option Uuid)
      → account_balance s'.entries c q
        ≡ account_balance s.entries c q
          -ℤ share c q LedgerAccount.escrow (some dev) cost
          +ℤ (share c q LedgerAccount.provider (some prov) (cost -ℤ fee)
              +ℤ share c q LedgerAccount.protocol none fee)

  settle_sums :
      pos 0 ≤ℤ cost
      → pos 0 ≤ℤ fee
      → fee ≤ℤ cost
      → (posting_sum debit (escrow_leg ∷ legs_of_settle)
          ≡ posting_sum credit (escrow_leg ∷ legs_of_settle))
        × (any is_negative (escrow_leg ∷ legs_of_settle) ≡ false)
  settle_sums p f le =
      let left = sub_nonneg cost fee le in
      elim (Bool-cases (ltb_ℤ (pos 0) (cost -ℤ fee))) [
        | inl net ↦ elim (Bool-cases (ltb_ℤ (pos 0) fee)) [
          | inl cut ↦
              rw (net, cut)
                (
                  omega int_tests,
                  ground
                      (arith, nonneg→ltb cost p, nonneg→ltb fee f, nonneg→ltb (cost -ℤ fee) left),
                )
          | inr free ↦
              rw (net, free)
                (
                  omega int_tests,
                  ground
                      (arith, nonneg→ltb cost p, nonneg→ltb fee f, nonneg→ltb (cost -ℤ fee) left),
                )
        ]
        | inr even ↦ elim (Bool-cases (ltb_ℤ (pos 0) fee)) [
          | inl cut ↦
              rw (even, cut)
                (
                  omega int_tests,
                  ground
                      (arith, nonneg→ltb cost p, nonneg→ltb fee f, nonneg→ltb (cost -ℤ fee) left),
                )
          | inr free ↦
              rw (even, free)
                (
                  omega int_tests,
                  ground
                      (arith, nonneg→ltb cost p, nonneg→ltb fee f, nonneg→ltb (cost -ℤ fee) left),
                )
        ]
      ]

  settle_posted :
      (s : Session)
      → leb_ℤ cost (pos 0) ≡ false
      → pos 0 ≤ℤ fee
      → fee ≤ℤ cost
      → settle job dev prov cost fee s
        ≡ (ok tt, posted "settle" (some job) none (escrow_leg ∷ legs_of_settle) s)
  unfolding settle
  settle_posted s p f le =
      let sums = settle_sums (leb_ℤ→nonneg cost p) f le in
      let h =
        post_transaction_accepts "settle" (some job) none escrow_leg legs_of_settle s sums.0
          sums.1 in
      rw p (
        ap (λ (r : Result Uuid × Session). elim r.0 [ ok a ↦ (ok tt, r.1) | err e ↦ (err e, r.1) ])
          h)

  Settles-posted :
      (s : Session)
      → pos 0 ≤ℤ fee
      → fee ≤ℤ cost
      → Settles s (posted "settle" (some job) none (escrow_leg ∷ legs_of_settle) s)
  Settles-posted s f le c q =
      let n = s.next_uuid in
      let net = cost -ℤ fee in
      rw
        (
          balance-append s.entries _ c q,
          balance-append (rows "settle" (some job) none n (escrow_leg ∷ [])) _ c q,
          balance-posted "settle" (some job) none _ _ n c q,
          debit_row n (some job) "settle" none LedgerAccount.escrow (some dev) cost c q,
          balance-if_positive "settle" (some job) none n net LedgerAccount.provider (some prov) c q,
          balance-if_positive "settle" (some job) none n fee LedgerAccount.protocol none c q,
          at_least_zero_nonneg net (sub_nonneg cost fee le),
          at_least_zero_nonneg fee f,
        )
        (omega int_laws)

  Settles-zero : (s : Session) → cost ≡ pos 0 → fee ≡ pos 0 → Settles s s
  Settles-zero s ec ef c q =
      let net : cost -ℤ fee ≡ pos 0 = rw (ec, ef) (omega int_laws) in
      rw (net, ec, ef)
        (rw
          (
            share-zero c LedgerAccount.escrow q (some dev),
            share-zero c LedgerAccount.provider q (some prov),
            share-zero c LedgerAccount.protocol q none,
          )
          (omega int_laws))

  settle_nothing :
      (s : Session) → leb_ℤ cost (pos 0) ≡ true → settle job dev prov cost fee s ≡ (ok tt, s)
  unfolding settle
  settle_nothing s h = rw h

  -- With a fee between 0 and the cost settling never raises, and moves exactly the cost out of the
  -- developer's escrow: the fee to the protocol and the rest to the provider. No other balance
  -- changes.
  pub settle_moves :
      (s : Session)
      → pos 0 ≤ℤ fee
      → fee ≤ℤ cost
      → ((settle job dev prov cost fee s).0 ≡ ok tt) × Settles s (settle job dev prov cost fee s).1
  settle_moves s f le = elim (Bool-cases (leb_ℤ cost (pos 0))) [
    | inl nothing ↦
        rw (settle_nothing s nothing) (refl, Settles-zero s (omega int_tests) (omega int_tests))
    | inr some_cost ↦ rw (settle_posted s some_cost f le) (refl, Settles-posted s f le)
  ]
