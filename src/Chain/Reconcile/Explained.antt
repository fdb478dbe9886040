-- ===== src/Chain/Reconcile/Explained.antt =====
-- A clean reconciliation in terms of the rows: which of them count, and for how much.
use gridix_infra.Chain.Watcher.{Wallet, developer_for}
use gridix_infra.Models.{debit, account_eq, direction_eq, LedgerAccount}
use gridix_infra.Models.Rows.{Uuid}
use gridix_infra.Ledger.{account_balance, sum_if}
use gridix_infra.Chain.Events.{EventName, ChainEvent}
use gridix_infra.Chain.Units.{to_units}
use gridix_infra.Chain.Settlement.Batch.{refs_of, is_provider_entry}
use gridix_infra.Prelude.Int.{pos, ◌≤ℤ◌, ◌+ℤ◌, nonneg→ltb, ltb_ℤ→le, ltb_ℤ}
use gridix_infra.Prelude.{
  ℕ, String, List, Option, ◌≡◌, [], none, arith, true, ◌∷◌, some, Bool, eq_iff, refl, ◌+◌, ◌⊎◌,
  ◌&&◌, Bool-cases, any, inr, inl, str_eq, ◌==◌, ==_refl, ==→eq, sym, ◌∙◌, ap, or_default, opt_is,
  All, ◌≤◌, ◌↔◌, false,
}
use mathlib.Core.Path.{subst}
use gridix_infra.Chain.Settlement.{
  ChainSettlement, ChainTxStatus, ProviderSettlement, TxPayload, settle_batch, deposit_settlement,
  debit_escrow,
}
use gridix_infra.Chain.Reconcile.Clean.{IsEven, IsPaid, reconcile_iff}
use gridix_infra.Chain.Reconcile.{
  Reconciler, ProviderWallet, found, reconcile, is_confirmed, is_settled, recorded_in, observed_in,
  debit_of, confirmed_debited, consumed, has_negative, earned_balance,
}

-- A total of the amounts of the rows that count.
pub data Adds {A : Type 0} (Counts : A → Type 0) (amount : A → ℕ) : List A → ℕ → Type 0 where
  nothing : Adds Counts amount [] 0
  counted :
      {x : A} {xs : List A} {n : ℕ}
      → Counts x
      → Adds Counts amount xs n
      → Adds Counts amount (x ∷ xs) (amount x + n)
  skipped :
      {x : A} {xs : List A} {n : ℕ}
      → ¬ Counts x
      → Adds Counts amount xs n
      → Adds Counts amount (x ∷ xs) n

-- The event is a confirmed payment to the wallet.
abbrev pub IsSeen : String → ChainEvent → Type 0
IsSeen wallet ev =
    (ev.confirmed ≡ true) × (ev.log.event_name ≡ EventName.settled) × (ev.log.provider ≡ wallet)

abbrev pub IsConfirmedIn : List ChainSettlement → Uuid → Type 0
IsConfirmedIn [] id = ⊥
IsConfirmedIn (row ∷ rows) id =
    ((row.id ≡ id) × (row.status ≡ ChainTxStatus.confirmed)) ⊎ IsConfirmedIn rows id

-- The reservation is the provider's, and its transaction is confirmed.
abbrev pub IsPaidTo : List ChainSettlement → Uuid → ProviderSettlement → Type 0
IsPaidTo rows p s = (s.provider_id ≡ p) × IsConfirmedIn rows s.settlement_id

abbrev pub wallet_of : TxPayload → Option String
wallet_of (settle_batch payees) = none
wallet_of (deposit_settlement amount) = none
wallet_of (debit_escrow wallet amount) = some wallet

abbrev pub amount_of : TxPayload → ℕ
amount_of (settle_batch payees) = 0
amount_of (deposit_settlement amount) = 0
amount_of (debit_escrow wallet amount) = amount

-- The transaction is a confirmed debit from a wallet that is linked to the developer.
abbrev pub IsDebitOf : List Wallet → Uuid → ChainSettlement → Type 0
IsDebitOf wallets dev row =
    (row.status ≡ ChainTxStatus.confirmed)
    × ((wallet : String) × (wallet_of row.payload ≡ some wallet)
        × (developer_for wallets wallet ≡ some dev))

module _ {A : Type 0} {Counts : A → Type 0} {amount : A → ℕ} where
  -- The total of a tail, whatever the head.
  Adds-unique : {xs : List A} {n m : ℕ} → Adds Counts amount xs n → Adds Counts amount xs m → n ≡ m
  Adds-unique nothing nothing = refl
  Adds-unique (counted h r) (counted k s) = omega (arith, Adds-unique r s)
  Adds-unique (counted h r) (skipped k s) = absurd (k h)
  Adds-unique (skipped h r) (counted k s) = absurd (h k)
  Adds-unique (skipped h r) (skipped k s) = Adds-unique r s

is_settled-eq : (e : EventName) → is_settled e ≡ true → e ≡ EventName.settled
is_settled-eq EventName.deposited h = absurd (ground (arith, h))
is_settled-eq EventName.withdrawn h = absurd (ground (arith, h))
is_settled-eq EventName.debited h = absurd (ground (arith, h))
is_settled-eq EventName.settled h = refl
is_settled-eq EventName.slashed h = absurd (ground (arith, h))

is_confirmed-eq : (s : ChainTxStatus) → is_confirmed s ≡ true → s ≡ ChainTxStatus.confirmed
is_confirmed-eq ChainTxStatus.pending h = absurd (ground (arith, h))
is_confirmed-eq ChainTxStatus.submitted h = absurd (ground (arith, h))
is_confirmed-eq ChainTxStatus.confirmed h = refl
is_confirmed-eq ChainTxStatus.failed h = absurd (ground (arith, h))

abbrev sees : String → ChainEvent → Bool
sees wallet ev = ev.confirmed && is_settled ev.log.event_name && str_eq ev.log.provider wallet

sees-IsSeen : (wallet : String) (ev : ChainEvent) → sees wallet ev ≡ true → IsSeen wallet ev
sees-IsSeen wallet ev h = (
  ground (arith, h),
  is_settled-eq ev.log.event_name (ground (arith, h)),
  (eq_iff ev.log.provider wallet).0 (ground (arith, h)),
)

IsSeen-sees : (wallet : String) (ev : ChainEvent) → IsSeen wallet ev → sees wallet ev ≡ true
IsSeen-sees wallet ev (on, is, to) = rw (on, is, (eq_iff ev.log.provider wallet).1 to) refl

observed-Adds :
    (wallet : String) (evs : List ChainEvent)
    → Adds (IsSeen wallet) (λ ev. ev.log.amount) evs (observed_in wallet evs)
observed-Adds wallet [] = nothing
observed-Adds wallet (ev ∷ evs) = elim (Bool-cases (sees wallet ev)) [
  | inl e ↦ rw e (counted (sees-IsSeen wallet ev e) (observed-Adds wallet evs))
  | inr e ↦
      rw e (skipped (λ h. ground (arith, e, IsSeen-sees wallet ev h)) (observed-Adds wallet evs))
]

abbrev is_in : List ChainSettlement → Uuid → Bool
is_in rows id = any (λ row. row.id == id && is_confirmed row.status) rows

is_in-IsConfirmedIn :
    (rows : List ChainSettlement) (id : Uuid) → is_in rows id ≡ true → IsConfirmedIn rows id
is_in-IsConfirmedIn [] id h = absurd (ground (arith, h))
is_in-IsConfirmedIn (row ∷ rows) id h =
    elim (Bool-cases (row.id == id && is_confirmed row.status)) [
      | inl e ↦ inl (ground (arith, e), is_confirmed-eq row.status (ground (arith, e)))
      | inr e ↦ inr (is_in-IsConfirmedIn rows id (ground (arith, h, e)))
    ]

IsConfirmedIn-is_in :
    (rows : List ChainSettlement) (id : Uuid) → IsConfirmedIn rows id → is_in rows id ≡ true
IsConfirmedIn-is_in [] id h = absurd h
IsConfirmedIn-is_in (row ∷ rows) id (inl (same, on)) = rw (on, same, ==_refl id) refl
IsConfirmedIn-is_in (row ∷ rows) id (inr h) = ground (arith, IsConfirmedIn-is_in rows id h)

zero_plus : (n : ℕ) → n ≡ 0 + n
zero_plus n = omega arith

some_eq : {A : Type 0} (x y : A) → some x ≡ some y → x ≡ y
some_eq x y e = ap (λ o. or_default o x) e

recorded-Adds :
    (rows : List ChainSettlement) (p : Uuid) (ss : List ProviderSettlement)
    → Adds (IsPaidTo rows p) (λ s. s.amount_units) ss (recorded_in rows p ss)
recorded-Adds rows p [] = nothing
recorded-Adds rows p (s ∷ ss) = elim (Bool-cases (s.provider_id == p)) [
  | inl e ↦ elim (Bool-cases (is_in rows s.settlement_id)) [
    | inl f ↦
        rw (e, f)
          (counted (==→eq _ _ e, is_in-IsConfirmedIn rows s.settlement_id f)
            (recorded-Adds rows p ss))
    | inr f ↦
        rw (e, f)
          (subst (Adds (IsPaidTo rows p) (λ x. x.amount_units) (s ∷ ss)) (zero_plus _) (
            skipped (λ h. ground (arith, f, IsConfirmedIn-is_in rows s.settlement_id (h.1)))
              (recorded-Adds rows p ss)))
  ]
  | inr e ↦ rw e (skipped (λ h. ground (arith, e, h.0)) (recorded-Adds rows p ss))
]

opt_is-eq : (o : Option ℕ) (n : ℕ) → opt_is o n ≡ true → o ≡ some n
opt_is-eq none n h = absurd (ground (arith, h))
opt_is-eq (some m) n h = ap some (==→eq m n h)

abbrev IsDebitFrom : List Wallet → Uuid → TxPayload → Type 0
IsDebitFrom wallets dev payload =
    (wallet : String) × (wallet_of payload ≡ some wallet)
    × (developer_for wallets wallet ≡ some dev)

-- A payload debits the developer with its amount, or does not debit it.
debit_of-cases :
    (wallets : List Wallet) (dev : Uuid) (payload : TxPayload)
    → (IsDebitFrom wallets dev payload × (amount_of payload ≡ debit_of wallets dev payload))
      ⊎ ((¬ IsDebitFrom wallets dev payload) × (0 ≡ debit_of wallets dev payload))
debit_of-cases wallets dev (settle_batch payees) = inr (λ (w, is_w, whose). cc, refl)
debit_of-cases wallets dev (deposit_settlement amount) = inr (λ (w, is_w, whose). cc, refl)
debit_of-cases wallets dev (debit_escrow wallet amount) =
    elim (Bool-cases (opt_is (developer_for wallets wallet) dev)) [
      | inl e ↦ inl ((wallet, refl, opt_is-eq _ _ e), rw e refl)
      | inr e ↦ inr (
        λ (w, is_w, whose).
            let mine : developer_for wallets wallet ≡ some dev =
              subst (λ x. developer_for wallets x ≡ some dev) (sym (some_eq wallet w is_w)) whose in
            ground (arith, sym e ∙ ap (λ o. opt_is o dev) mine, ==_refl dev),
        rw e refl,
      )
    ]

debited-Adds :
    (wallets : List Wallet) (dev : Uuid) (rows : List ChainSettlement)
    → Adds
        (IsDebitOf wallets dev)
        (λ row. amount_of row.payload)
        rows
        (confirmed_debited wallets dev rows)
debited-Adds wallets dev [] = nothing
debited-Adds wallets dev (row ∷ rows) = elim (Bool-cases (is_confirmed row.status)) [
  | inl e ↦ rw e (elim (debit_of-cases wallets dev row.payload) [
    | inl (is, amount) ↦
        subst
          (λ n.
            Adds (IsDebitOf wallets dev) (λ x. amount_of x.payload) (row ∷ rows)
              (n + confirmed_debited wallets dev rows))
          amount (counted (is_confirmed-eq row.status e, is) (debited-Adds wallets dev rows))
    | inr (other, amount) ↦
        subst
          (λ n.
            Adds (IsDebitOf wallets dev) (λ x. amount_of x.payload) (row ∷ rows)
              (n + confirmed_debited wallets dev rows))
          amount
          (subst (Adds (IsDebitOf wallets dev) (λ x. amount_of x.payload) (row ∷ rows))
            (zero_plus _) (skipped (λ h. other (h.1)) (debited-Adds wallets dev rows)))
  ])
  | inr e ↦
      rw e (
        skipped (λ h. ground (arith, sym e ∙ ap is_confirmed (h.0)))
          (debited-Adds wallets dev rows))
]

-- What the chain has for a developer and has debited makes up what the ledger has for it, free and
-- in escrow, and what it has consumed.
pub record IsMatched (r : Reconciler) (escrow_balance_of : String → Option ℕ) (dev : Wallet)
    : Type 0 where
  pub units : ℕ
  pub actual : ℕ
  pub used : ℕ
  pub debited : ℕ
  pub in_ledger :
      to_units
        (account_balance r.entries LedgerAccount.developer (some dev.developer_id)
          +ℤ account_balance r.entries LedgerAccount.escrow (some dev.developer_id))
        r.usdc_decimals
      ≡ some units
  pub on_chain : escrow_balance_of dev.wallet_address ≡ some actual
  pub used_is :
      used
      ≡ or_default
          (to_units
            (sum_if
              (λ e.
                (account_eq e.account LedgerAccount.escrow
                  && direction_eq e.direction debit
                  && str_eq e.reason "settle")
                && opt_is e.account_ref dev.developer_id)
              r.entries)
            r.usdc_decimals)
          0
  pub debited_is :
      Adds
        (IsDebitOf r.developers dev.developer_id)
        (λ row. amount_of row.payload)
        r.books.settlements
        debited
  pub even : actual + debited ≡ units + used

-- What was paid to a provider was seen on the chain, and earned.
pub record IsSettled (r : Reconciler) (p : ProviderWallet) : Type 0 where
  pub paid : ℕ
  pub seen : ℕ
  pub paid_is :
      Adds
        (IsPaidTo r.books.settlements p.provider_id)
        (λ s. s.amount_units)
        r.books.reservations
        paid
  pub seen_is : Adds (IsSeen p.wallet_address) (λ ev. ev.log.amount) r.events seen
  pub same : paid ≡ seen
  pub within :
      paid
      ≤ or_default
          (to_units
            (account_balance r.entries LedgerAccount.provider (some p.provider_id))
            r.usdc_decimals)
          0

module _ (r : Reconciler) (escrow_balance_of : String → Option ℕ) where
  IsEven-IsMatched :
      (dev : Wallet) → IsEven r escrow_balance_of dev → IsMatched r escrow_balance_of dev
  IsEven-IsMatched dev h = record {
    units = h.units;
    actual = h.actual;
    used = consumed r dev.developer_id;
    debited = confirmed_debited r.developers dev.developer_id r.books.settlements;
    in_ledger = h.in_ledger;
    on_chain = h.on_chain;
    used_is = refl;
    debited_is = debited-Adds r.developers dev.developer_id r.books.settlements;
    even = h.even;
  }

  IsMatched-IsEven :
      (dev : Wallet) → IsMatched r escrow_balance_of dev → IsEven r escrow_balance_of dev
  IsMatched-IsEven dev h = record {
    units = h.units;
    actual = h.actual;
    in_ledger = h.in_ledger;
    on_chain = h.on_chain;
    even = omega (
      arith,
      h.even,
      h.used_is,
      Adds-unique h.debited_is (debited-Adds r.developers dev.developer_id r.books.settlements),
    );
  }

  IsPaid-IsSettled : (p : ProviderWallet) → IsPaid r p → IsSettled r p
  IsPaid-IsSettled p (same, within) = record {
    paid = recorded_in r.books.settlements p.provider_id r.books.reservations;
    seen = observed_in p.wallet_address r.events;
    paid_is = recorded-Adds r.books.settlements p.provider_id r.books.reservations;
    seen_is = observed-Adds p.wallet_address r.events;
    same = same;
    within = within;
  }

  IsSettled-IsPaid : (p : ProviderWallet) → IsSettled r p → IsPaid r p
  IsSettled-IsPaid p h =
      let paid =
        Adds-unique h.paid_is
          (recorded-Adds r.books.settlements p.provider_id r.books.reservations) in
      let seen = Adds-unique h.seen_is (observed-Adds p.wallet_address r.events) in
      (omega (arith, paid, seen, h.same), omega (arith, paid, h.within))

  abbrev pub IsSolvent : Uuid → Type 0
  IsSolvent p = pos 0 ≤ℤ account_balance r.entries LedgerAccount.provider (some p)

  any-IsSolvent : (ps : List Uuid) → has_negative r ps ≡ false → All IsSolvent ps
  any-IsSolvent [] h = tt
  any-IsSolvent (p ∷ ps) h = elim (Bool-cases (ltb_ℤ (earned_balance r p) (pos 0))) [
    | inl e ↦ absurd (ground (arith, rw e at h))
    | inr e ↦ (ltb_ℤ→le (earned_balance r p) (pos 0) e, any-IsSolvent ps (rw e at h))
  ]

  IsSolvent-any : (ps : List Uuid) → All IsSolvent ps → has_negative r ps ≡ false
  IsSolvent-any [] hs = refl
  IsSolvent-any (p ∷ ps) (h, hs) = rw (nonneg→ltb (earned_balance r p) h, IsSolvent-any ps hs) refl

  All-each :
      {A : Type 0} (P Q : A → Type 0) (xs : List A) → ((x : A) → P x → Q x) → All P xs → All Q xs
  All-each P Q [] step hs = tt
  All-each P Q (x ∷ xs) step (h, hs) = (step x h, All-each P Q xs step hs)

  -- A reconciliation finds nothing, and raises nothing, exactly when three things hold. For every
  -- linked developer, the chain's balance and the amounts of the confirmed debits from its wallet
  -- make up its balances in the developer and escrow accounts and its settled debits from escrow.
  -- No provider's balance is negative. For every linked provider, the amounts reserved for it in
  -- confirmed settlements make up the confirmed payments seen to its wallet, and no more than it
  -- has earned.
  pub reconcile_clean_iff : (reconcile r escrow_balance_of ≡ found []) ↔ (
      All (IsMatched r escrow_balance_of) r.developers
      × All IsSolvent (refs_of is_provider_entry r.entries)
      × All (IsSettled r) r.providers)
  reconcile_clean_iff = (
    λ h.
        let (even, solvent, paid) = (reconcile_iff r escrow_balance_of).0 h in
        (
          All-each (IsEven r escrow_balance_of) (IsMatched r escrow_balance_of) r.developers
              IsEven-IsMatched even,
          any-IsSolvent (refs_of is_provider_entry r.entries) solvent,
          All-each (IsPaid r) (IsSettled r) r.providers IsPaid-IsSettled paid,
        ),
    λ (matched, solvent, settled). (reconcile_iff r escrow_balance_of).1 (
      All-each (IsMatched r escrow_balance_of) (IsEven r escrow_balance_of) r.developers
          IsMatched-IsEven matched,
      IsSolvent-any (refs_of is_provider_entry r.entries) solvent,
      All-each (IsSettled r) (IsPaid r) r.providers IsSettled-IsPaid settled,
    ),
  )
