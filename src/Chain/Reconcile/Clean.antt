-- ===== src/Chain/Reconcile/Clean.antt =====
-- When every check of a reconciliation is clean.
use gridix_infra.Chain.Settlement.Batch.{refs_of, is_provider_entry}
use gridix_infra.Chain.Units.{to_units}
use gridix_infra.Chain.Watcher.{Wallet}
use gridix_infra.Prelude.Int.{eqb_ℤ, ◌-ℤ◌, eq→eqb_ℤ}
use gridix_infra.Prelude.Int.{int_laws}
use gridix_infra.Chain.Reconcile.{
  Check, Divergence, ProviderWallet, Reconciler, found, chain_error, value_error, recorded, join,
  note_if, observed_in, pos, free_and_held, earned, confirmed_debited, consumed, check_developer,
  check_developers, check_provider, check_all, has_negative, check_providers, reconcile,
}
use gridix_infra.Prelude.{
  [], ◌∷◌, some, inl, inr, refl, arith, true, false, String, List, Bool, ℕ, Option, ◌≡◌, ◌++◌, ◌+◌,
  ap, ◌≤◌, ==→eq, All, Option-cases, ltb→ge, ◌↔◌, Bool-cases, not, ge→ltb, ◌==◌,
}

-- A developer's balance on the chain, and what it has been debited there, make up what the ledger
-- says that it has and has consumed.
pub record IsEven (r : Reconciler) (escrow_balance_of : String → Option ℕ) (dev : Wallet)
    : Type 0 where
  pub units : ℕ
  pub actual : ℕ
  pub in_ledger : to_units (free_and_held r dev.developer_id) r.usdc_decimals ≡ some units
  pub on_chain : escrow_balance_of dev.wallet_address ≡ some actual
  pub even :
      actual + confirmed_debited r.developers dev.developer_id r.books.settlements
      ≡ units + consumed r dev.developer_id

-- What was paid to a provider was seen on the chain, and earned.
abbrev pub IsPaid : Reconciler → ProviderWallet → Type 0
IsPaid r p =
    (recorded r p.provider_id ≡ observed_in p.wallet_address r.events)
    × (recorded r p.provider_id ≤ earned r p.provider_id)

append-nil : (ds es : List Divergence) → ds ++ es ≡ [] → (ds ≡ []) × (es ≡ [])
append-nil [] es e = (refl, e)
append-nil (d ∷ ds) es e = cc

found-eq : (ds es : List Divergence) → found ds ≡ found es → ds ≡ es
found-eq ds es e = cc

join-clean : (a b : Check) → join a b ≡ found [] → (a ≡ found []) × (b ≡ found [])
join-clean (found ds) (found es) e =
    let (h, k) = append-nil ds es (found-eq _ _ e) in (ap found h, ap found k)
join-clean (found ds) chain_error e = cc
join-clean (found ds) value_error e = cc
join-clean chain_error b e = cc
join-clean value_error b e = cc

note_if-nil : (b : Bool) (d : Divergence) → note_if b d ≡ [] → b ≡ false
note_if-nil true d e = cc
note_if-nil false d e = refl

pos_eq : (a b c : ℕ) → eqb_ℤ (pos a) (pos b -ℤ pos c) ≡ true → a + c ≡ b
pos_eq a b c e = omega (int_laws, ==→eq _ _ e)

eq_pos : (a b c : ℕ) → a + c ≡ b → eqb_ℤ (pos a) (pos b -ℤ pos c) ≡ true
eq_pos a b c e = let same : pos a ≡ pos b -ℤ pos c = omega (int_laws, e) in eq→eqb_ℤ _ _ same

no_note : (a b : ℕ) → not (a == b) ≡ false → a ≡ b
no_note a b e = ground (arith, e)

note_none : (a b : ℕ) → a ≡ b → not (a == b) ≡ false
note_none a b e = ground (arith, e)

module _ (r : Reconciler) (escrow_balance_of : String → Option ℕ) where
  developer-clean :
      (dev : Wallet)
      → check_developer r escrow_balance_of dev ≡ found []
      → IsEven r escrow_balance_of dev
  unfolding check_developer
  developer-clean dev e =
      elim (Option-cases (to_units (free_and_held r dev.developer_id) r.usdc_decimals)) [
        | inl f ↦ cc (rw (check_developer, f) at e)
        | inr (units, f) ↦ elim (Option-cases (escrow_balance_of dev.wallet_address)) [
          | inl g ↦ cc (rw (check_developer, f, g) at e)
          | inr (actual, g) ↦
              let same = note_if-nil _ _ (found-eq _ _ (rw (check_developer, f, g) at e)) in
              record {
                units = units;
                actual = actual;
                in_ledger = f;
                on_chain = g;
                even = pos_eq actual (units + consumed r dev.developer_id) _ (ground (arith, same));
              }
        ]
      ]

  clean-developer :
      (dev : Wallet)
      → IsEven r escrow_balance_of dev
      → check_developer r escrow_balance_of dev ≡ found []
  unfolding check_developer
  clean-developer dev h =
      rw
        (
          check_developer,
          h.in_ledger,
          h.on_chain,
          eq_pos h.actual (h.units + consumed r dev.developer_id) _ h.even,
        )
        refl

  developers-clean :
      (devs : List Wallet)
      → check_developers r escrow_balance_of devs ≡ found []
      → All (IsEven r escrow_balance_of) devs
  unfolding check_developers
  developers-clean [] e = tt
  developers-clean (dev ∷ devs) e =
      let (h, k) = join-clean (check_developer r escrow_balance_of dev) _ e in
      (developer-clean dev h, developers-clean devs k)

  clean-developers :
      (devs : List Wallet)
      → All (IsEven r escrow_balance_of) devs
      → check_developers r escrow_balance_of devs ≡ found []
  unfolding check_developers
  clean-developers [] hs = refl
  clean-developers (dev ∷ devs) (h, hs) = rw (clean-developer dev h, clean-developers devs hs) refl

  provider-clean : (p : ProviderWallet) → check_provider r p ≡ [] → IsPaid r p
  unfolding check_provider
  provider-clean p e =
      let (h, k) = append-nil _ _ e in
      (
        no_note (recorded r p.provider_id) (observed_in p.wallet_address r.events)
            (note_if-nil _ _ h),
        ltb→ge (earned r p.provider_id) (recorded r p.provider_id) (note_if-nil _ _ k),
      )

  clean-provider : (p : ProviderWallet) → IsPaid r p → check_provider r p ≡ []
  unfolding check_provider
  clean-provider p (seen, within) =
      rw
        (
          note_none (recorded r p.provider_id) (observed_in p.wallet_address r.events) seen,
          ge→ltb (earned r p.provider_id) (recorded r p.provider_id) within,
        )
        refl

  providers-clean : (ps : List ProviderWallet) → check_all r ps ≡ [] → All (IsPaid r) ps
  providers-clean [] e = tt
  providers-clean (p ∷ ps) e =
      let (h, k) = append-nil (check_provider r p) _ e in (provider-clean p h, providers-clean ps k)

  clean-providers : (ps : List ProviderWallet) → All (IsPaid r) ps → check_all r ps ≡ []
  clean-providers [] hs = refl
  clean-providers (p ∷ ps) (h, hs) = rw (clean-provider p h, clean-providers ps hs) refl

  -- No provider owes.
  abbrev pub AllSolvent : Type 0
  AllSolvent = has_negative r (refs_of is_provider_entry r.entries) ≡ false

  check_providers_iff : (check_providers r ≡ found []) ↔ (AllSolvent × All (IsPaid r) r.providers)
  unfolding check_providers
  check_providers_iff = elim (Bool-cases (has_negative r (refs_of is_provider_entry r.entries))) [
    | inl e ↦ (λ h. cc (rw e at h), λ h. cc (rw e at (h.0)))
    | inr e ↦ (
      λ h. (e, providers-clean r.providers (found-eq _ _ (rw e at h))),
      λ h. rw e (ap found (clean-providers r.providers (h.1))),
    )
  ]

  -- When a reconciliation finds and raises nothing, by the sums that it computes.
  pub reconcile_iff :
      (reconcile r escrow_balance_of ≡ found [])
      ↔ (All (IsEven r escrow_balance_of) r.developers × AllSolvent × All (IsPaid r) r.providers)
  unfolding reconcile
  reconcile_iff = (
    λ h.
        let (d, p) = join-clean (check_developers r escrow_balance_of r.developers) _ h in
        let (solvent, paid) = check_providers_iff.0 p in
        (developers-clean r.developers d, solvent, paid),
    λ (d, solvent, paid).
        rw (clean-developers r.developers d, check_providers_iff.1 (solvent, paid)) refl,
  )
