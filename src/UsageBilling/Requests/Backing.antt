-- ===== src/UsageBilling/Requests/Backing.antt =====
-- In every interleaving of requests the holds are backed by escrow, and no settlement fails.
use mathlib.Core.Path.{subst}
use gridix_infra.Ledger.Balances.{share}
use gridix_infra.Ledger.{account_balance}
use gridix_infra.UsageBilling.Settling.{settle_reservation_lem, settle_reservation_pays}
use gridix_infra.Config.{Settings}
use gridix_infra.Models.{LedgerAccount}
use gridix_infra.UsageBilling.Holds.{
  reserve_balance_err, reserve_balance_cases, quantize_at_least_zero, quantize_mono,
  release_reservation_lasts, release_reservation_lem,
}
use gridix_infra.UsageBilling.{
  reserve_balance, developer_balance, quantize_usdc, settle_reservation, release_reservation,
  usage_fee,
}
use gridix_infra.Session.{IsSaved, rollback, Session, Error, ok, err, Result}
use gridix_infra.Models.Rows.{Uuid}
use gridix_infra.Prelude.{
  if◌then◌else◌, ◌≡◌, ◌∷◌, ap, ◌∙◌, some, refl, ◌≤◌, Bool-cases, List, ◌++◌, All, Option, sym, none,
  ◌==◌, inr, inl, ==→eq,
}
use gridix_infra.Prelude.Int.{
  ℤ, pos, ◌+ℤ◌, ◌-ℤ◌, ◌≤ℤ◌, int_laws, at_least_zero, min_ℤ, min_ℤ-le, at_least_zero_nonneg,
  le-at_least_zero, at_least_zero_bound, at_least_zero_least,
}
use gridix_infra.UsageBilling.Requests.{
  Hold, World, Step, Interleaving, here, next, admit, refuse, answer, abandon, held_sum, IsBacked,
  IsPriced, held_sum-middle, All-middle, escrow_balance,
}

admit-IsBacked :
    (rest : Uuid → ℤ) (w : World) (dev : Uuid) (worst_case held : ℤ) (t : Session)
    → reserve_balance dev worst_case w.session ≡ (ok held, t)
    → IsBacked rest w
    → IsBacked rest (record {
      session = t;
      holds = record { dev = dev; worst_case = worst_case; held = held } ∷ w.holds;
    })
admit-IsBacked rest w dev worst_case held t e b =
    let r = reserve_balance_cases dev worst_case w.session held t e in
    let covered : held ≤ℤ developer_balance w.session.entries dev =
      rw (at_least_zero_nonneg _ (b.nonneg dev)) at r.covered in
    record {
      nonneg = λ d. rw (r.moves LedgerAccount.developer (some d)) (elim (Bool-cases (dev == d)) [
        | inl mine ↦ rw mine (
            let enough : held ≤ℤ developer_balance w.session.entries d =
              rw (==→eq dev d mine) at covered in
            omega (int_laws, enough))
        | inr other ↦ rw other (omega (int_laws, b.nonneg d))
      ]);
      backed = λ d. rw (r.moves LedgerAccount.escrow (some d)) (rw (b.backed d) (omega int_laws));
      priced = (r.is_amount, b.priced);
      durable = r.saves b.durable;
    }

refuse-IsBacked :
    (rest : Uuid → ℤ) (w : World) (dev : Uuid) (worst_case : ℤ) (e : Error) (t : Session)
    → reserve_balance dev worst_case w.session ≡ (err e, t)
    → IsBacked rest w
    → IsBacked rest (record { session = rollback t; holds = w.holds })
unfolding rollback
refuse-IsBacked rest w dev worst_case e t h b =
    let same = reserve_balance_err dev worst_case w.session t e h in
    let kept : t.committed ≡ w.session.entries =
      ap (λ (s : Session). s.committed) same ∙ b.durable in
    record {
      nonneg = λ d. rw kept (b.nonneg d);
      backed = λ d. rw kept (b.backed d);
      priced = b.priced;
      durable = refl;
    }

module _ (settings : Settings) (bps : settings.protocol_fee_bps ≤ 10_000) (rest : Uuid → ℤ) where
  module _ (w : World) (xs ys : List Hold) (h : Hold) (here_is : w.holds ≡ xs ++ h ∷ ys)
      (b : IsBacked rest w) where
    own_price : IsPriced h
    own_price = (All-middle xs ys h (rw here_is at b.priced)).0

    others-IsPriced : All IsPriced (xs ++ ys)
    others-IsPriced = (All-middle xs ys h (rw here_is at b.priced)).1

    escrow_split :
        (d : Uuid)
        → escrow_balance w.session.entries d
          ≡ rest d +ℤ ((if h.dev == d then h.held else pos 0) +ℤ held_sum d (xs ++ ys))
    escrow_split d =
        b.backed d
        ∙ ap (λ (hs : List Hold). rest d +ℤ held_sum d hs) here_is
        ∙ ap (λ (x : ℤ). rest d +ℤ x) (held_sum-middle d xs ys h)

    held_amount : at_least_zero (quantize_usdc h.held) ≡ h.held
    held_amount =
        rw own_price (
          rw (quantize_at_least_zero h.worst_case) (at_least_zero_nonneg _ (at_least_zero_bound _)))

    within :
        (usage : ℤ)
        → quantize_usdc (min_ℤ usage h.worst_case) ≤ℤ at_least_zero (quantize_usdc h.held)
    within usage = rw held_amount (
        rw own_price (
          le-at_least_zero _ _ (
            quantize_mono (min_ℤ usage h.worst_case) h.worst_case (min_ℤ-le usage h.worst_case).1)))

    held_nonneg : pos 0 ≤ℤ h.held
    held_nonneg = rw own_price (at_least_zero_bound _)

    bill_within : (usage : ℤ) → at_least_zero (quantize_usdc (min_ℤ usage h.worst_case)) ≤ℤ h.held
    bill_within usage = at_least_zero_least _ _ (rw held_amount at (within usage)) held_nonneg

    -- Whatever usage its node reports, and whatever other requests do, an admitted request can
    -- always be settled: the settlement returns, and bills at most what the request holds.
    pub answer_returns :
        (prov : Uuid) (usage : ℤ)
        → (cost : ℤ) × (t : Session) × (settle_reservation h.dev prov h.held
              (min_ℤ usage h.worst_case)
              settings
              w.session
            ≡ (ok cost, t))
          × (cost ≤ℤ h.held)
    answer_returns prov usage = (
      _,
      _,
      settle_reservation_lem h.dev prov h.held (min_ℤ usage h.worst_case) settings w.session bps
          (b.nonneg h.dev) (within usage),
      bill_within usage,
    )

    module _ (prov : Uuid) (usage : ℤ) where
      abbrev actual : ℤ
      actual = min_ℤ usage h.worst_case

      abbrev answered : Session
      answered = (settle_reservation h.dev prov h.held actual settings w.session).1

      pays :
          (c : LedgerAccount) (q : Option Uuid)
          → account_balance answered.entries c q
            ≡ account_balance w.session.entries c q
              -ℤ share c q LedgerAccount.escrow (some h.dev) h.held
              +ℤ share c q LedgerAccount.developer (some h.dev) h.held
              -ℤ share c q LedgerAccount.developer
                  (some h.dev)
                  (at_least_zero (quantize_usdc actual))
              +ℤ (share c q LedgerAccount.provider (some prov) (
                    at_least_zero (quantize_usdc actual)
                    -ℤ usage_fee (quantize_usdc actual) settings)
                  +ℤ share c q LedgerAccount.protocol none
                      (usage_fee (quantize_usdc actual) settings))
      pays c q = rw held_amount at (
          (settle_reservation_pays h.dev prov h.held actual settings w.session bps (b.nonneg h.dev)
              (within usage)).1
            c q)

      answered_nonneg : (d : Uuid) → pos 0 ≤ℤ developer_balance answered.entries d
      answered_nonneg d =
          let covered = bill_within usage in
          rw (pays LedgerAccount.developer (some d)) (elim (Bool-cases (h.dev == d)) [
            | inl mine ↦ rw mine (omega (int_laws, b.nonneg d, covered))
            | inr other ↦ rw other (omega (int_laws, b.nonneg d))
          ])

      answered_backed :
          (d : Uuid) → escrow_balance answered.entries d ≡ rest d +ℤ held_sum d (xs ++ ys)
      answered_backed d =
          rw (pays LedgerAccount.escrow (some d)) (rw (escrow_split d) (omega int_laws))

      answered-IsSaved : IsSaved answered
      answered-IsSaved =
          subst (λ (r : Result ℤ × Session). IsSaved r.1)
            (sym (
              settle_reservation_lem h.dev prov h.held actual settings w.session bps
                (b.nonneg h.dev) (within usage)))
            refl

      answer-IsBacked :
          (cost : ℤ) (t : Session)
          → settle_reservation h.dev prov h.held actual settings w.session ≡ (ok cost, t)
          → IsBacked rest (record { session = t; holds = xs ++ ys })
      answer-IsBacked cost t e =
          let v : t ≡ answered = ap (λ (r : Result ℤ × Session). r.1) (sym e) in
          rw v (record {
            nonneg = answered_nonneg;
            backed = answered_backed;
            priced = others-IsPriced;
            durable = answered-IsSaved;
          })

    released_moves :
        (c : LedgerAccount) (q : Option Uuid)
        → account_balance (release_reservation h.dev h.held w.session).1.entries c q
          ≡ account_balance w.session.entries c q
            -ℤ share c q LedgerAccount.escrow (some h.dev) h.held
            +ℤ share c q LedgerAccount.developer (some h.dev) h.held
    released_moves c q =
        rw held_amount at ((release_reservation_lasts h.dev h.held w.session).1 c q)

    abandon-IsBacked :
        (t : Session)
        → release_reservation h.dev h.held w.session ≡ (ok tt, t)
        → IsBacked rest (record { session = t; holds = xs ++ ys })
    abandon-IsBacked t e =
        let v : t ≡ (release_reservation h.dev h.held w.session).1 =
          ap (λ (r : Result (Unit {0}) × Session). r.1) (sym e) in
        rw v (record {
          nonneg = λ d.
              rw (released_moves LedgerAccount.developer (some d)) (elim (Bool-cases (h.dev == d)) [
                | inl mine ↦ rw mine (omega (int_laws, b.nonneg d, held_nonneg))
                | inr other ↦ rw other (omega (int_laws, b.nonneg d))
              ]);
          backed = λ d.
              rw (released_moves LedgerAccount.escrow (some d))
                (rw (escrow_split d) (omega int_laws));
          priced = others-IsPriced;
          durable =
              subst (λ (r : Result (Unit {0}) × Session). IsSaved r.1)
                (sym (release_reservation_lem h.dev h.held w.session)) refl;
        })

  Step-IsBacked : {w v : World} → Step settings w v → IsBacked rest w → IsBacked rest v
  Step-IsBacked {w} (admit dev worst_case held t e v_is) b =
      rw v_is (admit-IsBacked rest w dev worst_case held t e b)
  Step-IsBacked {w} (refuse dev worst_case e t h v_is) b =
      rw v_is (refuse-IsBacked rest w dev worst_case e t h b)
  Step-IsBacked {w} (answer xs ys h prov usage cost t here_is e v_is) b =
      rw v_is (answer-IsBacked w xs ys h here_is b prov usage cost t e)
  Step-IsBacked {w} (abandon xs ys h t here_is e v_is) b =
      rw v_is (abandon-IsBacked w xs ys h here_is b t e)

  -- However requests are admitted, refused, answered and abandoned in between one another, with a
  -- fee of at most 10,000 basis points: no developer's balance becomes negative, each developer's
  -- escrow stays the fixed rest and what their open requests hold, every hold is what its worst
  -- case costs, and everything written is durable.
  pub Interleaving-IsBacked :
      {w v : World} → IsBacked rest w → Interleaving settings w v → IsBacked rest v
  Interleaving-IsBacked b here = b
  Interleaving-IsBacked b (next r s) = Step-IsBacked s (Interleaving-IsBacked b r)
