-- ===== src/Chain/Reconcile/Overpay.antt =====
-- What the settlement engine pays, the reconciliation never finds to be too much.
use gridix_infra.Chain.Units.{to_units}
use gridix_infra.Prelude.Int.{ltb_ℤ}
use gridix_infra.Chain.Settlement.Reserved.{live_in}
use gridix_infra.Chain.Settlement.Covered.{IsCovered}
use gridix_infra.Chain.Settlement.Debits.{settle_tick}
use gridix_infra.Chain.Watcher.{Wallet}
use gridix_infra.Models.Rows.{Uuid, Timestamp}
use gridix_infra.Chain.Settlement.{
  ChainTxStatus, SettlementEngine, ChainSettlement, is_live, ProviderSettlement, SettlementClient,
  reserved_in,
}
use gridix_infra.Chain.Settlement.Batch.{earned_units, refs_of, is_provider_entry}
use gridix_infra.Chain.Reconcile.{
  Check, Divergence, DivergenceKind, Gauges, ProviderWallet, Reconciler, chain_error, value_error,
  found, join, check_developer, check_developers, run, is_confirmed, recorded, report, note_if,
  recorded_in, earned, check_provider, check_all, check_providers, reconcile, has_negative, pos,
  free_and_held, earned_balance,
}
use gridix_infra.Chain.Settlement.Ticks.{settle_tick-IsCovered}
use mathlib.Core.Path.{subst}
use gridix_infra.Prelude.{
  [], ◌∷◌, none, some, inl, inr, refl, arith, Bool, All, List, Option, true, ◌≡◌, All-append,
  String, false, any, ◌≤◌, ℕ, ◌==◌, ◌&&◌, Bool-cases, Option-cases, ge→ltb,
}

abbrev pub is_overpay : DivergenceKind → Bool
is_overpay DivergenceKind.provider_overpay = true
is_overpay _ = false

-- What a check finds, if it does not raise, is no payment above the earnings.
abbrev NoOverpay : Check → Type 0
NoOverpay (found ds) = All (λ d. is_overpay d.kind ≡ false) ds
NoOverpay _ = Unit

join-NoOverpay : (a b : Check) → NoOverpay a → NoOverpay b → NoOverpay (join a b)
join-NoOverpay (found ds) (found es) h k = All-append _ ds es h k
join-NoOverpay (found ds) chain_error h k = tt
join-NoOverpay (found ds) value_error h k = tt
join-NoOverpay chain_error b h k = tt
join-NoOverpay value_error b h k = tt

note_if-fine :
    (b : Bool) (d : Divergence)
    → is_overpay d.kind ≡ false
    → All (λ d. is_overpay d.kind ≡ false) (note_if b d)
note_if-fine true d h = (h, tt)
note_if-fine false d h = tt

confirmed-live : (s : ChainTxStatus) → is_confirmed s ≡ true → is_live s ≡ true
confirmed-live ChainTxStatus.confirmed e = refl
confirmed-live ChainTxStatus.pending e = ground (arith, e)
confirmed-live ChainTxStatus.submitted e = ground (arith, e)
confirmed-live ChainTxStatus.failed e = ground (arith, e)

any-confirmed :
    (rows : List ChainSettlement) (id : Uuid)
    → any (λ row. row.id == id && is_confirmed row.status) rows ≡ true
    → live_in rows id ≡ true
any-confirmed [] id e = e
any-confirmed (row ∷ rows) id e = elim (Bool-cases (row.id == id)) [
  | inl f ↦ elim (Bool-cases (is_confirmed row.status)) [
    | inl g ↦ rw (f, confirmed-live row.status g) refl
    | inr g ↦ elim (Bool-cases (is_live row.status)) [
      | inl l ↦ rw (f, l) refl
      | inr l ↦ rw (f, l) (any-confirmed rows id (rw (f, g) at e))
    ]
  ]
  | inr f ↦ rw f (any-confirmed rows id (rw f at e))
]

recorded_in-le :
    (rows : List ChainSettlement) (p : Uuid) (ss : List ProviderSettlement)
    → recorded_in rows p ss ≤ reserved_in rows p ss
recorded_in-le rows p [] = omega arith
recorded_in-le rows p (s ∷ ss) =
    let ih = recorded_in-le rows p ss in
    elim (Bool-cases (any (λ row. row.id == s.settlement_id && is_confirmed row.status) rows)) [
      | inl e ↦ rw (e, any-confirmed rows s.settlement_id e) (ground (arith, ih))
      | inr e ↦ rw e (ground (arith, ih))
    ]

module _ (engine : SettlementEngine) (r : Reconciler) where
  earned_units-earned :
      (p : Uuid)
      → engine.usdc_decimals ≡ r.usdc_decimals
      → earned_units engine r.entries p ≤ earned r p
  unfolding earned_units
  earned_units-earned p same = elim (Bool-cases (ltb_ℤ (pos 0) (earned_balance r p))) [
    | inl e ↦ rw (e, same) (omega arith)
    | inr e ↦ rw e (omega arith)
  ]

check_developer-NoOverpay :
    (r : Reconciler) (escrow_balance_of : String → Option ℕ) (dev : Wallet)
    → NoOverpay (check_developer r escrow_balance_of dev)
unfolding check_developer
check_developer-NoOverpay r escrow_balance_of dev =
    elim (Option-cases (to_units (free_and_held r dev.developer_id) r.usdc_decimals)) [
      | inl e ↦ rw (NoOverpay, e) tt
      | inr (units, e) ↦ elim (Option-cases (escrow_balance_of dev.wallet_address)) [
        | inl f ↦ rw (NoOverpay, e, f) tt
        | inr (actual, f) ↦ rw (NoOverpay, e, f) (note_if-fine _ _ refl)
      ]
    ]

check_developers-NoOverpay :
    (r : Reconciler) (escrow_balance_of : String → Option ℕ) (devs : List Wallet)
    → NoOverpay (check_developers r escrow_balance_of devs)
unfolding check_developers
check_developers-NoOverpay r escrow_balance_of [] = tt
check_developers-NoOverpay r escrow_balance_of (dev ∷ devs) =
    join-NoOverpay (check_developer r escrow_balance_of dev)
      (check_developers r escrow_balance_of devs)
      (check_developer-NoOverpay r escrow_balance_of dev)
      (check_developers-NoOverpay r escrow_balance_of devs)

module _ (r : Reconciler) (covered : (p : Uuid) → recorded r p ≤ earned r p) where
  check_provider-fine :
      (p : ProviderWallet) → All (λ d. is_overpay d.kind ≡ false) (check_provider r p)
  unfolding check_provider
  check_provider-fine p =
      let within =
        ge→ltb (earned r p.provider_id) (recorded r p.provider_id) (covered p.provider_id) in
      rw within (All-append _ _ [] (note_if-fine _ _ refl) tt)

  check_all-fine :
      (ps : List ProviderWallet) → All (λ d. is_overpay d.kind ≡ false) (check_all r ps)
  check_all-fine [] = tt
  check_all-fine (p ∷ ps) = All-append _ _ _ (check_provider-fine p) (check_all-fine ps)

  check_providers-NoOverpay : NoOverpay (check_providers r)
  unfolding check_providers
  check_providers-NoOverpay =
      elim (Bool-cases (has_negative r (refs_of is_provider_entry r.entries))) [
        | inl e ↦ rw (NoOverpay, e) tt
        | inr e ↦ rw (NoOverpay, e) (check_all-fine r.providers)
      ]

  reconcile-NoOverpay :
      (escrow_balance_of : String → Option ℕ) → NoOverpay (reconcile r escrow_balance_of)
  unfolding reconcile
  reconcile-NoOverpay escrow_balance_of =
      join-NoOverpay _ _ (check_developers-NoOverpay r escrow_balance_of r.developers)
        check_providers-NoOverpay

-- The divergences of a report.
abbrev reported : Option (List Divergence × Gauges) → List Divergence
reported none = []
reported (some (ds, after)) = ds

report-fine :
    (now : Timestamp) (gauges : Gauges) (c : Check) (ds : List Divergence) (after : Gauges)
    → NoOverpay c
    → report now gauges c ≡ some (ds, after)
    → All (λ d. is_overpay d.kind ≡ false) ds
report-fine now gauges (found es) ds after h e =
    subst (λ o. All (λ d. is_overpay d.kind ≡ false) (reported o)) e h
report-fine now gauges chain_error ds after h e =
    subst (λ o. All (λ d. is_overpay d.kind ≡ false) (reported o)) e tt
report-fine now gauges value_error ds after h e = cc

-- The reconciler after a tick of the settlement engine, over the same ledger.
abbrev pub after_tick :
    SettlementEngine
    → (Uuid → Option String)
    → SettlementClient
    → Bool
    → Timestamp
    → Reconciler
    → Reconciler
after_tick engine wallet_of client force now r = record r {
  books = settle_tick engine r.entries r.developers wallet_of client force now r.books;
}

-- The settlement engine and the reconciler agree on payments. From tables in which the live
-- reservations of each provider are covered by its earnings, with the same decimals on both sides,
-- a tick of the settlement engine leaves tables in which a reconciliation that does not raise
-- reports no payment above a provider's earnings, whatever the chain's client answers.
pub never_overpaid :
    (engine : SettlementEngine) (r : Reconciler) (wallet_of : Uuid → Option String)
    (client : SettlementClient) (force : Bool) (now later : Timestamp)
    (escrow_balance_of : String → Option ℕ) (gauges after : Gauges) (ds : List Divergence)
    → engine.usdc_decimals ≡ r.usdc_decimals
    → IsCovered engine r.entries r.books
    → run (after_tick engine wallet_of client force now r) escrow_balance_of later gauges
      ≡ some (ds, after)
    → All (λ d. is_overpay d.kind ≡ false) ds
unfolding run
never_overpaid engine r wallet_of client force now later escrow_balance_of gauges after ds same
      covered ran =
    let next = after_tick engine wallet_of client force now r in
    let (cover, fresh) =
      settle_tick-IsCovered engine r.entries wallet_of r.developers client force now r.books
        covered in
    report-fine later gauges (reconcile next escrow_balance_of) ds after
      (reconcile-NoOverpay next
        (λ p. omega (
          arith,
          recorded_in-le next.books.settlements p next.books.reservations,
          cover p,
          earned_units-earned engine next p same,
        ))
        escrow_balance_of)
      ran
