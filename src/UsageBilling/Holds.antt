-- ===== src/UsageBilling/Holds.antt =====
-- Reserving, releasing and settling: what each returns, and the session that it leaves.
use gridix_infra.UsageBilling.Effects.{quantize_idem}
use gridix_infra.Decimal.{round_half_up}
use gridix_infra.Config.{Settings}
use gridix_infra.Models.{LedgerAccount}
use gridix_infra.Prelude.{◌≡◌, some, true, false, none, Bool-cases, arith, refl, inr, inl, sym, ◌∙◌}
use gridix_infra.Models.Rows.{Uuid}
use gridix_infra.Prelude.Int.{
  ℤ, pos, ◌≤ℤ◌, at_least_zero, leb_ℤ, ltb_ℤ, at_least_zero_nonpos, at_least_zero_pos,
  at_least_zero_bound, le-at_least_zero, ltb_ℤ→le, negsuc,
}
use gridix_infra.UsageBilling.{
  quantize_usdc, reserve_balance, return_hold, release_reservation, settle_reservation,
  charge_usage, developer_balance,
}
use gridix_infra.Ledger.Balances.{
  moved, Moves, Moves-moved, post-legs_pos, transferred, Moves-zero, balance-transferred,
}
use gridix_infra.Session.{
  saved, IsSaved, commit, rollback, Session, ok, err, insufficient_balance, Result, Error,
}

module _ (dev : Uuid) (raw : ℤ) (s : Session) where
  abbrev amount : ℤ
  amount = quantize_usdc raw

  abbrev hold_moved : Session
  hold_moved =
      transferred LedgerAccount.developer (some dev) LedgerAccount.escrow (some dev) amount
        "inference_hold" none none s

  reserve_nothing : leb_ℤ amount (pos 0) ≡ true → reserve_balance dev raw s ≡ (ok (pos 0), s)
  unfolding reserve_balance
  reserve_nothing h = rw h

  reserve_some :
      leb_ℤ amount (pos 0) ≡ false
      → ltb_ℤ (developer_balance s.entries dev) amount ≡ false
      → reserve_balance dev raw s ≡ (ok amount, saved hold_moved)
  unfolding reserve_balance commit
  reserve_some h rich = ground (
    arith,
    post-legs_pos LedgerAccount.developer (some dev) LedgerAccount.escrow (some dev) amount
        "inference_hold" none none s h,
  )

  -- A reservation above the balance is refused with the two amounts, and writes nothing.
  pub reserve_balance_refuses :
      leb_ℤ amount (pos 0) ≡ false
      → ltb_ℤ (developer_balance s.entries dev) amount ≡ true
      → reserve_balance dev raw s
        ≡ (err (insufficient_balance (developer_balance s.entries dev) amount), s)
  unfolding reserve_balance
  reserve_balance_refuses h poor = ground arith

  -- What a reservation that returns has done.
  pub record Reserved (held : ℤ) (t : Session) : Type 0 where
    pub is_amount : held ≡ at_least_zero amount
    pub covered : held ≤ℤ at_least_zero (developer_balance s.entries dev)
    pub moves : Moves LedgerAccount.developer (some dev) LedgerAccount.escrow (some dev) held s t
    pub saves : IsSaved s → IsSaved t

  Reserved-nothing : leb_ℤ amount (pos 0) ≡ true → Reserved (pos 0) s
  Reserved-nothing h = record {
    is_amount = sym (at_least_zero_nonpos amount h);
    covered = at_least_zero_bound _;
    moves = Moves-zero LedgerAccount.developer LedgerAccount.escrow (some dev) (some dev) s;
    saves = λ k. k;
  }

  Reserved-some :
      leb_ℤ amount (pos 0) ≡ false
      → ltb_ℤ (developer_balance s.entries dev) amount ≡ false
      → Reserved amount (saved hold_moved)
  Reserved-some h rich = record {
    is_amount = sym (at_least_zero_pos amount h);
    covered = le-at_least_zero _ _ (ltb_ℤ→le (developer_balance s.entries dev) amount rich);
    moves = balance-transferred _ _ _ _ amount _ _ _ s;
    saves = λ k. refl;
  }

  Reserved-same :
      (x held : ℤ) (u t : Session)
      → (ok held, t) ≡ (let y : Result ℤ × Session = (ok x, u) in y)
      → Reserved x u
      → Reserved held t
  Reserved-same x held u t e r = let v : held ≡ x = cc in let w : t ≡ u = cc in rw (v, w) r

  -- A reservation that returns has taken the quantized amount (0 if that is not positive), which the
  -- balance covers, out of the developer's balance and into their escrow, changed no other
  -- balance, and made durable what it wrote.
  pub reserve_balance_cases :
      (held : ℤ) (t : Session) → reserve_balance dev raw s ≡ (ok held, t) → Reserved held t
  reserve_balance_cases held t e = elim (Bool-cases (leb_ℤ amount (pos 0))) [
    | inl nothing ↦
        Reserved-same (pos 0) held s t (sym e ∙ reserve_nothing nothing) (Reserved-nothing nothing)
    | inr due ↦ elim (Bool-cases (ltb_ℤ (developer_balance s.entries dev) amount)) [
      | inl poor ↦ cc (e, reserve_balance_refuses due poor)
      | inr rich ↦
          Reserved-same amount held (saved hold_moved) t (sym e ∙ reserve_some due rich)
            (Reserved-some due rich)
    ]
  ]

  return_hold_lem : return_hold dev raw s ≡ (
    ok tt,
    moved LedgerAccount.escrow
        (some dev)
        LedgerAccount.developer
        (some dev)
        amount
        "inference_hold_release"
        none
        none
        s,
  )
  unfolding return_hold
  return_hold_lem = ground (
    arith,
    post-legs_pos LedgerAccount.escrow (some dev) LedgerAccount.developer (some dev) amount
        "inference_hold_release" none none s,
  )

  abbrev pub returned : Session
  returned =
      moved LedgerAccount.escrow (some dev) LedgerAccount.developer (some dev) amount
        "inference_hold_release" none none s

  pub release_reservation_lem : release_reservation dev raw s ≡ (ok tt, saved returned)
  unfolding release_reservation commit
  release_reservation_lem = ground (arith, return_hold_lem)

  -- Releasing never raises: it moves the held amount from the developer's escrow back to their
  -- balance, changes no other balance, and a rollback of the session right after it undoes nothing.
  pub release_reservation_lasts :
      ((release_reservation dev raw s).0 ≡ ok tt)
      × Moves LedgerAccount.escrow
          (some dev)
          LedgerAccount.developer
          (some dev)
          (at_least_zero amount)
          s
          (release_reservation dev raw s).1
      × (rollback (release_reservation dev raw s).1 ≡ (release_reservation dev raw s).1)
  unfolding rollback
  release_reservation_lasts =
      rw release_reservation_lem (refl, Moves-moved _ _ _ _ amount _ _ _ s, refl)

  pub settle_steps :
      (prov : Uuid) (actual : ℤ) (settings : Settings) (cost : ℤ) (t : Session)
      → charge_usage dev prov actual settings none "inference_usage" returned ≡ (ok cost, t)
      → settle_reservation dev prov raw actual settings s ≡ (ok cost, saved t)
  unfolding settle_reservation commit
  settle_steps prov actual settings cost t e = ground (arith, return_hold_lem, e)

-- A higher amount is quantized to no less.
pub quantize_mono : (x y : ℤ) → x ≤ℤ y → quantize_usdc x ≤ℤ quantize_usdc y
unfolding quantize_usdc round_half_up
quantize_mono (pos n) (pos m) h = ground arith
quantize_mono (pos n) (negsuc m) h = ground arith
quantize_mono (negsuc n) (pos m) h = ground arith
quantize_mono (negsuc n) (negsuc m) h = ground arith

pub quantize_at_least_zero :
    (x : ℤ) → quantize_usdc (at_least_zero (quantize_usdc x)) ≡ at_least_zero (quantize_usdc x)
quantize_at_least_zero x = elim (Bool-cases (leb_ℤ (quantize_usdc x) (pos 0))) [
  | inl e ↦ rw (at_least_zero_nonpos _ e) (unfold quantize_usdc round_half_up in refl)
  | inr e ↦ rw (at_least_zero_pos _ e) (quantize_idem x)
]

-- A reservation that raises has written nothing.
pub reserve_balance_err :
    (dev : Uuid) (raw : ℤ) (s t : Session) (e : Error)
    → reserve_balance dev raw s ≡ (err e, t)
    → t ≡ s
reserve_balance_err dev raw s t e h = elim (Bool-cases (leb_ℤ (quantize_usdc raw) (pos 0))) [
  | inl nothing ↦ cc (h, reserve_nothing dev raw s nothing)
  | inr due ↦ elim (Bool-cases (ltb_ℤ (developer_balance s.entries dev) (quantize_usdc raw))) [
    | inl poor ↦ cc (h, reserve_balance_refuses dev raw s due poor)
    | inr rich ↦ cc (h, reserve_some dev raw s due rich)
  ]
]
