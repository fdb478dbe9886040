-- ===== src/Chain/Settlement/Debits.antt =====
-- The debits of the settlement engine, and its tick (api/app/chain/settlement.py).
use gridix_infra.Prelude.Sort.{sort_by}
use gridix_infra.Ledger.{sum_if}
use gridix_infra.Chain.Units.{to_units}
use gridix_infra.Chain.Watcher.{Wallet, developer_for}
use gridix_infra.Models.{account_eq, LedgerAccount, direction_eq, debit}
use gridix_infra.Models.Rows.{LedgerEntry, Uuid, Timestamp}
use gridix_infra.Prelude.{
  ℕ, Bool, false, not, ◌&&◌, ◌||◌, ◌==◌, ◌+◌, ◌-◌, Option, none, some, String, List, [], ◌∷◌, ◌++◌,
  any, find, leb, if◌then◌else◌, or_default, str_eq, opt_is,
}
use gridix_infra.Chain.Settlement.{
  ChainSettlement, BatchKey, deposit_key, settle_key, debit_key, settle_batch, deposit_settlement,
  debit_escrow, SettlementEngine, Books, SettlementClient, is_live, has_inflight, TxPayload,
}
use gridix_infra.Chain.Settlement.Recovery.{recover}
use gridix_infra.Chain.Settlement.Batch.{new_settlement, elapsed, maybe_batch, refs_of, next_nonce}

abbrev pub same_key : BatchKey → BatchKey → Bool
same_key (deposit_key a) (deposit_key b) = a == b
same_key (settle_key a) (settle_key b) = a == b
same_key (debit_key a u) (debit_key b v) = a == b && u == v
same_key _ _ = false

abbrev pub is_consumption : LedgerEntry → Bool
is_consumption e =
    account_eq e.account LedgerAccount.escrow
    && direction_eq e.direction debit
    && str_eq e.reason "settle"

-- A phase that raises ends the tick; what earlier phases committed stays.
abbrev pub phases : List (Books → Option Books) → Books → Books
phases [] books = books
phases (phase ∷ rest) books = elim (phase books) [ none ↦ books | some next ↦ phases rest next ]

module _ (engine : SettlementEngine) (entries : List LedgerEntry) (wallets : List Wallet) where
  -- `_settled_units_by_dev`
  unfoldable pub settled_units : Uuid → ℕ
  settled_units dev =
      or_default
        (to_units (sum_if (λ e. is_consumption e && opt_is e.account_ref dev) entries)
          engine.usdc_decimals)
        0

  abbrev pub paid_by : Uuid → Option Uuid → ℕ → ℕ
  paid_by dev none amount = 0
  paid_by dev (some owner) amount = if owner == dev then amount else 0

  abbrev pub debit_units : Uuid → TxPayload → ℕ
  debit_units dev (settle_batch payees) = 0
  debit_units dev (deposit_settlement amount) = 0
  debit_units dev (debit_escrow wallet amount) = paid_by dev (developer_for wallets wallet) amount

  -- `_onchain_debited_by_dev`
  abbrev pub debited_units : Uuid → List ChainSettlement → ℕ
  debited_units dev [] = 0
  debited_units dev (row ∷ rows) =
      let rest = debited_units dev rows in
      if is_live row.status then debit_units dev row.payload + rest else rest

  -- `_dev_wallets`
  abbrev pub address_in : Option Wallet → Option String
  address_in none = none
  address_in (some w) = if str_eq w.wallet_address "" then none else some w.wallet_address

  abbrev pub address_of : Uuid → Option String
  address_of dev = address_in (find (λ w. w.developer_id == dev) wallets)

  -- A row whose key is taken is refused by the database.
  abbrev pub add_row : ChainSettlement → Books → Option Books
  add_row row books =
      if any (λ r. same_key r.batch_key row.batch_key) books.settlements
      then none
      else some (record books {
        settlements = books.settlements ++ row ∷ [];
        next_id = books.next_id + 1;
      })

  abbrev pub debit_dev : Uuid → ℕ → ℕ → Option String → Books → Option Books
  debit_dev dev nonce units none books = some books
  debit_dev dev nonce units (some wallet) books =
      if units == 0
      then some books
      else add_row
          (new_settlement books.next_id (debit_key dev (settled_units dev)) nonce
            (debit_escrow wallet units))
          books

  -- The next free nonce after a developer's row.
  abbrev pub nonce_after : ℕ → ℕ → Option String → ℕ
  nonce_after nonce units none = nonce
  nonce_after nonce units (some wallet) = if units == 0 then nonce else nonce + 1

  -- The loop of `_maybe_debit`; what has been debited was read before it.
  unfoldable pub debit_all : List ChainSettlement → List Uuid → ℕ → Books → Option Books
  debit_all before [] nonce books = some books
  debit_all before (dev ∷ devs) nonce books =
      let units = settled_units dev - debited_units dev before in
      elim (debit_dev dev nonce units (address_of dev) books) [
        | none ↦ none
        | some next ↦ debit_all before devs (nonce_after nonce units (address_of dev)) next
      ]

  -- `_maybe_debit`
  unfoldable pub maybe_debit : SettlementClient → Bool → Timestamp → Books → Option Books
  maybe_debit client force now books =
      if has_inflight books || not (force || elapsed engine now books.last_batch_at)
      then some books
      else elim client.get_nonce [
        | none ↦ none
        | some chain_nonce ↦
            debit_all books.settlements (sort_by leb (refs_of is_consumption entries))
              (next_nonce chain_nonce books.settlements) books
      ]

  -- `tick`
  unfoldable pub settle_tick :
      (Uuid → Option String) → SettlementClient → Bool → Timestamp → Books → Books
  settle_tick provider_wallet client force now books =
      phases
        (recover engine client now
          ∷ maybe_batch engine entries provider_wallet client force now
          ∷ maybe_debit client force now
          ∷ recover engine client now
          ∷ [])
        books
