-- ===== src/Chain/Settlement.antt =====
-- api/app/chain/settlement.py: the settlement engine, which pays what providers have earned and
-- debits what developers have used, on the chain. The chain's client is a parameter: what it
-- answers during a tick, where `none` stands for the ChainError that it raises. A tick's order of
-- broadcasts, its counts and its log are left out. A UUID is a number; where the code sorts by
-- UUIDs the model sorts by the numbers.
pub mod Recovery
pub mod Batch
pub mod Debits
pub mod Reserved
pub mod Payees
pub mod Covered
pub mod Ticks
mod Tests
use gridix_infra.Chain.Units.{to_units}
use gridix_infra.Prelude.Int.{ltb_ℤ, pos}
use gridix_infra.Prelude.Sort.{sort_by}
use gridix_infra.Ledger.{account_balance}
use gridix_infra.Models.{account_eq, LedgerAccount}
use gridix_infra.Prelude.{
  ℕ, Bool, true, false, not, ◌||◌, ◌==◌, ◌+◌, Option, none, some, String, List, filter, ltb,
  if◌then◌else◌, ◌∷◌, any, ◌&&◌, ◌-◌, str_eq, leb, map, ◌++◌, [], or_default,
}
use gridix_infra.Models.Rows.{Timestamp, Uuid, LedgerEntry}

pub data ChainTxStatus : Type 0 where
  pending submitted confirmed failed : ChainTxStatus

-- The kind of a transaction and its payload: the payees with their amounts, the amount for the
-- pool, or a developer's wallet and amount.
pub data TxPayload : Type 0 where
  settle_batch : List (String × ℕ) → TxPayload
  deposit_settlement : ℕ → TxPayload
  debit_escrow : String → ℕ → TxPayload

-- `batch_key`; the cycle of a batch is a fresh number.
pub data BatchKey : Type 0 where
  deposit_key settle_key : Uuid → BatchKey
  debit_key : Uuid → ℕ → BatchKey

pub record ChainSettlement : Type 0 where
  pub id : Uuid
  pub status : ChainTxStatus
  pub batch_key : BatchKey
  pub nonce : ℕ
  pub tx_hash : Option String
  pub block_number : Option ℕ
  pub payload : TxPayload
  pub submitted_at : Option Timestamp
  pub confirmed_at : Option Timestamp

pub record ProviderSettlement : Type 0 where
  pub provider_id : Uuid
  pub settlement_id : Uuid
  pub amount_units : ℕ

pub record Receipt : Type 0 where
  pub status : ℕ
  pub block_number : ℕ

pub record SettlementClient : Type 0 where
  pub latest_block : Option ℕ
  pub get_receipt : String → Option (Option Receipt)
  pub send : ChainSettlement → Option String
  pub settlement_pool : Option ℕ
  pub get_nonce : Option ℕ

pub record SettlementEngine : Type 0 where
  pub usdc_decimals : ℕ
  pub confirmations : ℕ
  pub threshold_units : ℕ
  pub interval : ℕ

-- The tables and what the process remembers. `next_id` is an id that no row has.
pub record Books : Type 0 where
  pub settlements : List ChainSettlement
  pub reservations : List ProviderSettlement
  pub last_batch_at : Option Timestamp
  pub next_id : Uuid

abbrev pub is_inflight : ChainTxStatus → Bool
is_inflight ChainTxStatus.pending = true
is_inflight ChainTxStatus.submitted = true
is_inflight _ = false

-- `_LIVE`
abbrev pub is_live : ChainTxStatus → Bool
is_live ChainTxStatus.failed = false
is_live _ = true

-- `_inflight`
abbrev pub has_inflight : Books → Bool
has_inflight books = any (λ row. is_inflight row.status) books.settlements

-- The part of a reservation that counts: its settlement is live.
abbrev pub live_units : List ChainSettlement → ProviderSettlement → ℕ
live_units rows r =
    if any (λ row. row.id == r.settlement_id && is_live row.status) rows then r.amount_units else 0

-- `_reserved_by_provider`
abbrev pub reserved_in : List ChainSettlement → Uuid → List ProviderSettlement → ℕ
reserved_in rows p [] = 0
reserved_in rows p (r ∷ rs) =
    let rest = reserved_in rows p rs in
    if r.provider_id == p then live_units rows r + rest else rest

abbrev pub reserved : Books → Uuid → ℕ
reserved books p = reserved_in books.settlements p books.reservations
