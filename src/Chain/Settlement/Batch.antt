-- ===== src/Chain/Settlement/Batch.antt =====
-- The batches of the settlement engine: what is owed, and `_maybe_batch`
-- (api/app/chain/settlement.py).
use gridix_infra.Chain.Settlement.{
  Books, SettlementEngine, ChainSettlement, BatchKey, ProviderSettlement, TxPayload, settle_batch,
  reserved, SettlementClient, ChainTxStatus, settle_key, has_inflight, deposit_key,
  deposit_settlement,
}
use gridix_infra.Chain.Units.{to_units}
use gridix_infra.Prelude.Int.{ltb_ℤ, pos}
use gridix_infra.Prelude.Sort.{sort_by}
use gridix_infra.Ledger.{account_balance}
use gridix_infra.Models.{account_eq, LedgerAccount}
use gridix_infra.Prelude.{
  ℕ, Bool, true, not, ◌||◌, ◌==◌, ◌+◌, Option, none, some, String, List, ltb, if◌then◌else◌, ◌∷◌,
  any, ◌-◌, str_eq, leb, map, ◌++◌, [], or_default,
}
use gridix_infra.Models.Rows.{Timestamp, Uuid, LedgerEntry}

-- `GROUP BY account_ref` over the provider account.
abbrev pub add_ref : Option Uuid → List Uuid → List Uuid
add_ref none refs = refs
add_ref (some p) refs = if any (λ q. q == p) refs then refs else p ∷ refs

abbrev pub refs_of : (LedgerEntry → Bool) → List LedgerEntry → List Uuid
refs_of keep [] = []
refs_of keep (e ∷ es) =
    let rest = refs_of keep es in if keep e then add_ref e.account_ref rest else rest

abbrev pub is_provider_entry : LedgerEntry → Bool
is_provider_entry e = account_eq e.account LedgerAccount.provider

-- What a provider has earned, in raw units; nothing where the balance is not positive.
unfoldable pub earned_units : SettlementEngine → List LedgerEntry → Uuid → ℕ
earned_units engine entries p =
    let balance = account_balance entries LedgerAccount.provider (some p) in
    if ltb_ℤ (pos 0) balance then or_default (to_units balance engine.usdc_decimals) 0 else 0

-- A payee: its id, wallet and units.
pub record Payee : Type 0 where
  pub provider_id : Uuid
  pub wallet : String
  pub units : ℕ

abbrev pub total_units : List Payee → ℕ
total_units [] = 0
total_units (x ∷ xs) = x.units + total_units xs

abbrev pub elapsed : SettlementEngine → Timestamp → Option Timestamp → Bool
elapsed engine now none = true
elapsed engine now (some last) = leb (last + engine.interval) now

-- `max(chain_nonce, highest + 1)`
abbrev pub next_nonce : ℕ → List ChainSettlement → ℕ
next_nonce chain_nonce [] = chain_nonce
next_nonce chain_nonce (row ∷ rows) =
    let rest = next_nonce chain_nonce rows in
    if ltb rest (row.nonce + 1) then row.nonce + 1 else rest

abbrev pub new_settlement : Uuid → BatchKey → ℕ → TxPayload → ChainSettlement
new_settlement id key nonce payload = record {
  id = id;
  status = ChainTxStatus.pending;
  batch_key = key;
  nonce = nonce;
  tx_hash = none;
  block_number = none;
  payload = payload;
  submitted_at = none;
  confirmed_at = none;
}

abbrev pub reservation_of : Uuid → Payee → ProviderSettlement
reservation_of id x = record {
  provider_id = x.provider_id;
  settlement_id = id;
  amount_units = x.units;
}

-- The rows of a batch: the deposit of what the pool lacks, if anything, and the payments.
abbrev pub batch_rows : Uuid → ℕ → ℕ → List Payee → List ChainSettlement
batch_rows id nonce shortfall payees =
    let pay = settle_batch (map (λ x. (x.wallet, x.units)) payees) in
    if shortfall == 0
    then new_settlement id (settle_key id) nonce pay ∷ []
    else (new_settlement (id + 1) (deposit_key id) nonce (deposit_settlement shortfall)
        ∷ new_settlement id (settle_key id) (nonce + 1) pay
        ∷ [])

module _ (engine : SettlementEngine) (entries : List LedgerEntry)
    (wallet_of : Uuid → Option String) where
  abbrev pub owed : Books → Uuid → ℕ
  owed books p = earned_units engine entries p - reserved books p

  -- A provider without a wallet is skipped.
  abbrev pub payee_of : Uuid → ℕ → Option String → List Payee → List Payee
  payee_of p units none rest = rest
  payee_of p units (some wallet) rest =
      if str_eq wallet "" || units == 0
      then rest
      else record { provider_id = p; wallet = wallet; units = units } ∷ rest

  -- `_unsettled`
  abbrev pub unsettled : Books → List Uuid → List Payee
  unsettled books [] = []
  unsettled books (p ∷ ps) = payee_of p (owed books p) (wallet_of p) (unsettled books ps)

  abbrev pub record_batch : Timestamp → ℕ → ℕ → List Payee → Books → Books
  record_batch now nonce pool payees books = record {
    settlements =
        books.settlements ++ batch_rows books.next_id nonce (total_units payees - pool) payees;
    reservations = books.reservations ++ map (reservation_of books.next_id) payees;
    last_batch_at = some now;
    next_id = books.next_id + 2;
  }

  abbrev pub payees_of : Books → List Payee
  payees_of books =
      sort_by (λ x y. leb x.provider_id y.provider_id)
        (unsettled books (refs_of is_provider_entry entries))

  -- `_maybe_batch`
  unfoldable pub maybe_batch : SettlementClient → Bool → Timestamp → Books → Option Books
  maybe_batch client force now books =
      let payees = payees_of books in
      let total = total_units payees in
      if has_inflight books
        || total == 0
        || not (force || leb engine.threshold_units total || elapsed engine now books.last_batch_at)
      then some books
      else elim client.get_nonce [
        | none ↦ none
        | some chain_nonce ↦ elim client.settlement_pool [
          | none ↦ none
          | some pool ↦
              some (record_batch now (next_nonce chain_nonce books.settlements) pool payees books)
        ]
      ]
