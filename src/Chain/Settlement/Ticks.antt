-- ===== src/Chain/Settlement/Ticks.antt =====
-- Whole ticks of the settlement engine, raising phases included.
use gridix_infra.Chain.Settlement.Reserved.{reserved_in-append, reserved_in-new}
use gridix_infra.Prelude.Sort.{sort_by-Perm}
use gridix_infra.Chain.Settlement.Payees.{unsettled-owed, units_for-Perm, reserved_in-payees}
use gridix_infra.Chain.Settlement.Debits.{
  phases, debit_dev, debit_all, maybe_debit, settle_tick, settled_units, add_row, debited_units,
  address_of, same_key, nonce_after,
}
use gridix_infra.Chain.Watcher.{Wallet}
use gridix_infra.Chain.Settlement.Covered.{Leaves, IsCovered, recover-IsCovered, less-IsCovered}
use gridix_infra.Chain.Settlement.{
  Books, SettlementEngine, ProviderSettlement, SettlementClient, has_inflight, ChainSettlement,
}
use gridix_infra.Chain.Settlement.Recovery.{recover}
use gridix_infra.Chain.Settlement.Batch.{
  Payee, batch_rows, maybe_batch, reservation_of, record_batch, payees_of, total_units,
  is_provider_entry, elapsed, unsettled, next_nonce, refs_of,
}
use gridix_infra.Models.Rows.{Uuid, LedgerEntry, Timestamp}
use gridix_infra.Prelude.{
  [], ◌∷◌, none, some, inl, inr, refl, List, ℕ, Option, ◌≤◌, All, String, ◌<◌, arith, ◌+◌,
  Bool-cases, map, ◌==◌, Bool, ◌-◌, ◌++◌, ◌||◌, not, leb, Option-cases, All-append, ◌≡◌, any,
}

All-weaken :
    (rs : List ProviderSettlement) (m n : ℕ)
    → m ≤ n
    → All (λ r. r.settlement_id < m) rs
    → All (λ r. r.settlement_id < n) rs
All-weaken [] m n le hs = tt
All-weaken (r ∷ rs) m n le (h, hs) = (omega (arith, h, le), All-weaken rs m n le hs)

reservations-fresh :
    (id : Uuid) (xs : List Payee) → All (λ r. r.settlement_id < id + 2) (map (reservation_of id) xs)
reservations-fresh id [] = tt
reservations-fresh id (x ∷ xs) = (omega arith, reservations-fresh id xs)

batch_rows-new :
    (id nonce shortfall : ℕ) (xs : List Payee)
    → All (λ row. id ≤ row.id) (batch_rows id nonce shortfall xs)
batch_rows-new id nonce shortfall xs = elim (Bool-cases (shortfall == 0)) [
  | inl e ↦ rw e (omega arith, tt)
  | inr e ↦ rw e (omega arith, (omega arith, tt))
]

next_phase :
    (P : Books → Type 0) (o : Option Books) (books : Books) (rest : Books → Books)
    → ((b : Books) → P b → P (rest b))
    → P books
    → Leaves P o
    → P (elim o [ none ↦ books | some next ↦ rest next ])
next_phase P none books rest h c l = c
next_phase P (some next) books rest h c l = h next l

-- Phases that each keep a property where they do not raise.
phases-keep :
    (P : Books → Type 0) (fs : List (Books → Option Books)) (books : Books)
    → All (λ f. (b : Books) → P b → Leaves P (f b)) fs
    → P books
    → P (phases fs books)
phases-keep P [] books hs c = c
phases-keep P (f ∷ fs) books (h, hs) c =
    next_phase P (f books) books (phases fs) (λ b d. phases-keep P fs b hs d) c (h books c)

module _ (engine : SettlementEngine) (entries : List LedgerEntry) (wallet_of : Uuid → Option String)
    (wallets : List Wallet) where
  record_batch-IsCovered :
      (now : Timestamp) (nonce pool : ℕ) (books : Books)
      → IsCovered engine entries books
      → IsCovered engine entries (
          record_batch engine entries wallet_of now nonce pool
            (payees_of engine entries wallet_of books)
            books)
  record_batch-IsCovered now nonce pool books (cover, fresh) =
      let xs = payees_of engine entries wallet_of books in
      let new = batch_rows books.next_id nonce (total_units xs - pool) xs in
      let rows = books.settlements ++ new in
      (
        λ p.
            let owes = unsettled-owed engine entries wallet_of books p is_provider_entry entries in
            let sorted = units_for-Perm p (
              sort_by-Perm (λ x y. leb x.provider_id y.provider_id)
                (unsettled engine entries wallet_of books (refs_of is_provider_entry entries))) in
            let sum =
              reserved_in-append rows p books.reservations
                (map (reservation_of books.next_id) xs) in
            let old =
              reserved_in-new books.settlements new p books.next_id books.reservations
                (batch_rows-new books.next_id nonce (total_units xs - pool) xs) fresh in
            let added = reserved_in-payees rows p books.next_id xs in
            omega (arith, owes, sorted, sum, old, added, cover p),
        All-append (λ r. r.settlement_id < books.next_id + 2) books.reservations _
            (All-weaken books.reservations books.next_id (books.next_id + 2) (omega arith) fresh)
            (reservations-fresh books.next_id xs),
      )

  pool_Leaves :
      (now : Timestamp) (nonce : ℕ) (books : Books) (o : Option ℕ)
      → IsCovered engine entries books
      → Leaves (IsCovered engine entries) (elim o [
        | none ↦ none
        | some pool ↦ some (
            record_batch engine entries wallet_of now nonce pool
              (payees_of engine entries wallet_of books)
              books)
      ])
  pool_Leaves now nonce books none c = tt
  pool_Leaves now nonce books (some pool) c = record_batch-IsCovered now nonce pool books c

  maybe_batch-IsCovered :
      (client : SettlementClient) (force : Bool) (now : Timestamp) (books : Books)
      → IsCovered engine entries books
      → Leaves
          (IsCovered engine entries)
          (maybe_batch engine entries wallet_of client force now books)
  unfolding maybe_batch
  maybe_batch-IsCovered client force now books c =
      let total = total_units (payees_of engine entries wallet_of books) in
      elim (Bool-cases (
        has_inflight books
        || total == 0
        || not (
            force || leb engine.threshold_units total || elapsed engine now books.last_batch_at))) [
              | inl e ↦ rw e c
              | inr e ↦ elim (Option-cases client.get_nonce) [
                | inl f ↦ rw (Leaves, e, f) tt
                | inr (nonce, f) ↦
                    rw (Leaves, e, f)
                      (pool_Leaves now (next_nonce nonce books.settlements) books
                        client.settlement_pool c)
              ]
            ]

  add_row-IsCovered :
      (row : ChainSettlement) (books : Books)
      → row.id ≡ books.next_id
      → IsCovered engine entries books
      → Leaves (IsCovered engine entries) (add_row engine entries wallets row books)
  add_row-IsCovered row books own (cover, fresh) =
      elim (Bool-cases (any (λ r. same_key r.batch_key row.batch_key) books.settlements)) [
        | inl e ↦ rw e tt
        | inr e ↦ rw e (
            less-IsCovered engine entries books
              (record books {
                settlements = books.settlements ++ row ∷ [];
                next_id = books.next_id + 1;
              })
              (λ p.
                reserved_in-new books.settlements (row ∷ []) p books.next_id books.reservations
                  (omega (arith, own), tt) fresh)
              (All-weaken books.reservations books.next_id (books.next_id + 1) (omega arith) fresh)
              (cover, fresh))
      ]

  debit_dev-IsCovered :
      (dev : Uuid) (nonce units : ℕ) (wallet : Option String) (books : Books)
      → IsCovered engine entries books
      → Leaves
          (IsCovered engine entries)
          (debit_dev engine entries wallets dev nonce units wallet books)
  debit_dev-IsCovered dev nonce units none books c = c
  debit_dev-IsCovered dev nonce units (some wallet) books c = elim (Bool-cases (units == 0)) [
    | inl e ↦ rw e c
    | inr e ↦ rw (Leaves, e) (add_row-IsCovered _ books refl c)
  ]

  next_Leaves :
      (o : Option Books) (rest : Books → Option Books)
      → ((b : Books) → IsCovered engine entries b → Leaves (IsCovered engine entries) (rest b))
      → Leaves (IsCovered engine entries) o
      → Leaves (IsCovered engine entries) (elim o [ none ↦ none | some next ↦ rest next ])
  next_Leaves none rest h l = tt
  next_Leaves (some next) rest h l = h next l

  debit_all-IsCovered :
      (before : List ChainSettlement) (devs : List Uuid) (nonce : ℕ) (books : Books)
      → IsCovered engine entries books
      → Leaves (IsCovered engine entries) (debit_all engine entries wallets before devs nonce books)
  unfolding debit_all
  debit_all-IsCovered before [] nonce books c = c
  debit_all-IsCovered before (dev ∷ devs) nonce books c =
      let units =
        settled_units engine entries wallets dev
        - debited_units engine entries wallets dev before in
      let wallet = address_of engine entries wallets dev in
      next_Leaves (debit_dev engine entries wallets dev nonce units wallet books)
        (debit_all engine entries wallets before devs
          (nonce_after engine entries wallets nonce units wallet))
        (debit_all-IsCovered before devs (nonce_after engine entries wallets nonce units wallet))
        (debit_dev-IsCovered dev nonce units wallet books c)

  maybe_debit-IsCovered :
      (client : SettlementClient) (force : Bool) (now : Timestamp) (books : Books)
      → IsCovered engine entries books
      → Leaves
          (IsCovered engine entries)
          (maybe_debit engine entries wallets client force now books)
  unfolding maybe_debit
  maybe_debit-IsCovered client force now books c =
      elim (Bool-cases
        (has_inflight books || not (force || elapsed engine now books.last_batch_at))) [
          | inl e ↦ rw e c
          | inr e ↦ elim (Option-cases client.get_nonce) [
            | inl f ↦ rw (Leaves, e, f) tt
            | inr (nonce, f) ↦ rw (Leaves, e, f) (debit_all-IsCovered books.settlements _ _ books c)
          ]
        ]

  -- No provider is paid twice. When what the live settlements reserve for each provider is covered
  -- by what it has earned in the ledger, and no reservation has an id that is still to be given, so
  -- it is after a tick, whatever the chain's client answers and in whatever phase of the tick a
  -- call to it, or the database, raises.
  pub settle_tick-IsCovered :
      (client : SettlementClient) (force : Bool) (now : Timestamp) (books : Books)
      → IsCovered engine entries books
      → IsCovered engine entries
          (settle_tick engine entries wallets wallet_of client force now books)
  unfolding settle_tick
  settle_tick-IsCovered client force now books c =
      phases-keep (IsCovered engine entries)
        (recover engine client now
          ∷ maybe_batch engine entries wallet_of client force now
          ∷ maybe_debit engine entries wallets client force now
          ∷ recover engine client now
          ∷ [])
        books
        (
          λ b. recover-IsCovered engine entries client now b,
          (
            λ b. maybe_batch-IsCovered client force now b,
            (
              λ b. maybe_debit-IsCovered client force now b,
              (λ b. recover-IsCovered engine entries client now b, tt),
            ),
          ),
        )
        c
