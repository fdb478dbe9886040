-- ===== src/Chain/Settlement/Covered.antt =====
-- No provider is paid twice: what live settlements reserve never exceeds what was earned.
use gridix_infra.Chain.Settlement.Reserved.{IsFresh, live_in, reserved_in-filter, reserved_in_mono}
use gridix_infra.Models.Rows.{LedgerEntry, Uuid, Timestamp}
use gridix_infra.Prelude.{
  [], ◌∷◌, none, some, true, false, inl, inr, refl, Option, ◌≡◌, List, arith, ℕ, ◌≤◌, String,
  Option-cases, Bool-cases, ◌==◌, ltb, ◌∙◌, ◌&&◌, ◌+◌, All, ap, ◌<◌, sym, if◌then◌else◌, Bool,
  All-sublist, not,
}
use gridix_infra.Chain.Settlement.{
  ChainTxStatus, Books, is_inflight, SettlementEngine, is_live, ChainSettlement, SettlementClient,
  reserved, Receipt, ProviderSettlement, reserved_in, has_inflight,
}
use gridix_infra.Chain.Settlement.Recovery.{
  check_hash, check_sent, recover_row, by_receipt, Tables, wants_broadcast, recovered, release,
  recover_rows, with_tables, recover,
}
use gridix_infra.Chain.Settlement.Batch.{earned_units}

-- Where a phase does not raise, what it leaves.
abbrev pub Leaves : (Books → Type 0) → Option Books → Type 0
Leaves P none = Unit
Leaves P (some books) = P books

inflight-live : (s : ChainTxStatus) → is_inflight s ≡ true → is_live s ≡ true
inflight-live ChainTxStatus.pending e = refl
inflight-live ChainTxStatus.submitted e = refl
inflight-live ChainTxStatus.confirmed e = refl
inflight-live ChainTxStatus.failed e = ground (arith, e)

live-cons :
    (row next : ChainSettlement) (rows others : List ChainSettlement) (id : Uuid)
    → next.id ≡ row.id
    → (is_live next.status ≡ true → is_live row.status ≡ true)
    → (live_in others id ≡ true → live_in rows id ≡ true)
    → live_in (next ∷ others) id ≡ true
    → live_in (row ∷ rows) id ≡ true
live-cons row next rows others id same alive h e =
    elim (Bool-cases (next.id == id && is_live next.status)) [
      | inl f ↦
          let live : is_live row.status ≡ true = alive (ground (arith, f)) in
          let here : (row.id == id) ≡ true = ap (λ x. x == id) (sym same) ∙ ground (arith, f) in
          rw (here, live) refl
      | inr f ↦
          let rest : live_in others id ≡ true =
            sym (ap (λ b. if b then true else live_in others id) f) ∙ e in
          elim (Bool-cases (row.id == id && is_live row.status)) [
            | inl g ↦ rw g refl
            | inr g ↦ rw g (h rest)
          ]
    ]

-- A release gives reservations up, or nothing.
release-less :
    (b : Bool) (next : ChainSettlement) (rows : List ChainSettlement) (p : Uuid)
    (rs : List ProviderSettlement)
    → reserved_in rows p (if b then release next rs else rs) ≤ reserved_in rows p rs
release-less false next rows p rs = omega arith
release-less true next rows p rs = elim (Bool-cases (is_live next.status)) [
  | inl e ↦ rw e (omega arith)
  | inr e ↦ rw e (reserved_in-filter rows p (λ r. not (r.settlement_id == next.id)) rs)
]

release-All :
    (P : ProviderSettlement → Type 0) (b : Bool) (next : ChainSettlement)
    (rs : List ProviderSettlement)
    → All P rs
    → All P (if b then release next rs else rs)
release-All P false next rs hs = hs
release-All P true next rs hs = elim (Bool-cases (is_live next.status)) [
  | inl e ↦ rw e hs
  | inr e ↦ rw e (All-sublist P (λ r. not (r.settlement_id == next.id)) rs hs)
]

module _ (engine : SettlementEngine) (entries : List LedgerEntry) where
  -- Every provider's live reservations are covered by what it has earned, and no reservation has
  -- an id that a later settlement may get.
  abbrev pub IsCovered : Books → Type 0
  IsCovered books = ((p : Uuid) → reserved books p ≤ earned_units engine entries p) × IsFresh books

  -- Reserving no more than before keeps the cover.
  pub less-IsCovered :
      (books next : Books)
      → ((p : Uuid) → reserved next p ≤ reserved books p)
      → IsFresh next
      → IsCovered books
      → IsCovered next
  less-IsCovered books next h fresh (cover, old) = (λ p. omega (arith, h p, cover p), fresh)

  -- A row that is recovered keeps its id, and does not come alive.
  abbrev Recovers : ChainSettlement → Option ChainSettlement → Type 0
  Recovers row none = Unit
  Recovers row (some next) =
      (next.id ≡ row.id) × (is_live next.status ≡ true → is_live row.status ≡ true)

  by_receipt-id :
      (latest : ℕ) (now : Timestamp) (row : ChainSettlement) (r : Option Receipt)
      → (by_receipt engine latest now row r).id ≡ row.id
  by_receipt-id latest now row none = refl
  by_receipt-id latest now row (some receipt) =
      elim (Bool-cases (ltb (latest + 1) (engine.confirmations + receipt.block_number))) [
        | inl e ↦ rw e refl
        | inr e ↦ elim (Bool-cases (receipt.status == 1)) [
          | inl f ↦ rw (e, f) refl
          | inr f ↦ rw (e, f) refl
        ]
      ]

  receipt-Recovers :
      (latest : ℕ) (now : Timestamp) (row sent : ChainSettlement) (o : Option (Option Receipt))
      → sent.id ≡ row.id
      → is_live row.status ≡ true
      → Recovers row
          (elim o [ none ↦ none | some receipt ↦ some (by_receipt engine latest now sent receipt) ])
  receipt-Recovers latest now row sent none same live = tt
  receipt-Recovers latest now row sent (some receipt) same live =
      (by_receipt-id latest now sent receipt ∙ same, λ _. live)

  check_hash-Recovers :
      (client : SettlementClient) (latest : ℕ) (now : Timestamp) (row sent : ChainSettlement)
      (hash : Option String)
      → sent.id ≡ row.id
      → is_live row.status ≡ true
      → Recovers row (check_hash engine client latest now sent hash)
  check_hash-Recovers client latest now row sent none same live = (same, λ _. live)
  check_hash-Recovers client latest now row sent (some hash) same live =
      receipt-Recovers latest now row sent (client.get_receipt hash) same live

  check_sent-Recovers :
      (client : SettlementClient) (latest : ℕ) (now : Timestamp) (row : ChainSettlement)
      (hash : Option String)
      → is_live row.status ≡ true
      → Recovers row (check_sent engine client latest now row hash)
  check_sent-Recovers client latest now row none live = (refl, λ _. live)
  check_sent-Recovers client latest now row (some hash) live =
      check_hash-Recovers client latest now row _ (some hash) refl live

  recover_row-Recovers :
      (client : SettlementClient) (latest : ℕ) (now : Timestamp) (row : ChainSettlement)
      → Recovers row (recover_row engine client latest now row)
  unfolding recover_row
  recover_row-Recovers client latest now row = elim (Bool-cases (is_inflight row.status)) [
    | inl e ↦ elim (Bool-cases (wants_broadcast row)) [
      | inl f ↦
          rw (Recovers, e, f)
            (check_sent-Recovers client latest now row (client.send row)
              (inflight-live row.status e))
      | inr f ↦
          rw (e, f)
            (check_hash-Recovers client latest now row row row.tx_hash refl
              (inflight-live row.status e))
    ]
    | inr e ↦ rw e (refl, λ live. live)
  ]

  -- What a recovery of all rows leaves: no id comes alive, and no provider reserves more.
  abbrev AllRecover : List ChainSettlement → List ProviderSettlement → Uuid → Option Tables → Type 0
  AllRecover rows rs n none = Unit
  AllRecover rows rs n (some (next, left)) =
      ((id : Uuid) → live_in next id ≡ true → live_in rows id ≡ true)
      × ((p : Uuid) (some_rows : List ChainSettlement)
          → reserved_in some_rows p left ≤ reserved_in some_rows p rs)
      × All (λ r. r.settlement_id < n) left

  recovered-AllRecover :
      (row : ChainSettlement) (rows : List ChainSettlement) (rs : List ProviderSettlement)
      (n : Uuid) (o : Option ChainSettlement) (rest : Option Tables)
      → Recovers row o
      → AllRecover rows rs n rest
      → AllRecover (row ∷ rows) rs n (recovered row o rest)
  recovered-AllRecover row rows rs n none rest h hs = tt
  recovered-AllRecover row rows rs n (some next) none h hs = tt
  recovered-AllRecover row rows rs n (some next) (some (others, left)) (same, alive)
        (live, less, fresh) =
      (
        λ id e. live-cons row next rows others id same alive (live id) e,
        λ p some_rows.
            omega (
              arith,
              release-less (is_inflight row.status) next some_rows p left,
              less p some_rows,
            ),
        release-All (λ r. r.settlement_id < n) (is_inflight row.status) next left fresh,
      )

  recover_rows-AllRecover :
      (client : SettlementClient) (latest : ℕ) (now : Timestamp) (rows : List ChainSettlement)
      (rs : List ProviderSettlement) (n : Uuid)
      → All (λ r. r.settlement_id < n) rs
      → AllRecover rows rs n (recover_rows engine client latest now rows rs)
  unfolding recover_rows
  recover_rows-AllRecover client latest now [] rs n hs = (λ id e. e, λ p some_rows. omega arith, hs)
  recover_rows-AllRecover client latest now (row ∷ rows) rs n hs =
      recovered-AllRecover row rows rs n (recover_row engine client latest now row)
        (recover_rows engine client latest now rows rs) (recover_row-Recovers client latest now row)
        (recover_rows-AllRecover client latest now rows rs n hs)

  with_tables-IsCovered :
      (books : Books) (o : Option Tables)
      → AllRecover books.settlements books.reservations books.next_id o
      → IsCovered books
      → Leaves IsCovered (with_tables books o)
  with_tables-IsCovered books none h c = tt
  with_tables-IsCovered books (some (rows, left)) (live, less, fresh) c =
      less-IsCovered books (record books { settlements = rows; reservations = left })
        (λ p.
          omega
            (arith, reserved_in_mono books.settlements rows p left live, less p books.settlements))
        fresh c

  pub recover-IsCovered :
      (client : SettlementClient) (now : Timestamp) (books : Books)
      → IsCovered books
      → Leaves IsCovered (recover engine client now books)
  unfolding recover
  recover-IsCovered client now books c = elim (Bool-cases (has_inflight books)) [
    | inl e ↦ elim (Option-cases client.latest_block) [
      | inl f ↦ rw (Leaves, e, f) tt
      | inr (latest, f) ↦
          rw (Leaves, e, f)
            (with_tables-IsCovered books _
              (recover_rows-AllRecover client latest now books.settlements books.reservations
                books.next_id c.1)
              c)
    ]
    | inr e ↦ rw e c
  ]
