-- ===== src/Chain/Settlement/Recovery.antt =====
-- The recovery of rows in flight by the settlement engine, `_recover`
-- (api/app/chain/settlement.py).
use gridix_infra.Chain.Settlement.{
  Books, ChainTxStatus, ChainSettlement, SettlementEngine, Receipt, SettlementClient,
  ProviderSettlement, is_inflight, is_live, has_inflight,
}
use gridix_infra.Prelude.{
  ℕ, Bool, true, false, not, ◌||◌, ◌==◌, ◌+◌, Option, none, some, String, List, filter, ltb,
  if◌then◌else◌, ◌∷◌, [],
}
use gridix_infra.Models.Rows.{Timestamp}

abbrev pub is_pending : ChainTxStatus → Bool
is_pending ChainTxStatus.pending = true
is_pending _ = false

abbrev pub wants_broadcast : ChainSettlement → Bool
wants_broadcast row = is_pending row.status || elim row.tx_hash [ none ↦ true | some h ↦ false ]

-- What a receipt makes of a row.
abbrev pub by_receipt :
    SettlementEngine → ℕ → Timestamp → ChainSettlement → Option Receipt → ChainSettlement
by_receipt engine latest now row none = row
by_receipt engine latest now row (some receipt) =
    if ltb (latest + 1) (engine.confirmations + receipt.block_number)
    then row
    else (if receipt.status == 1
        then record row {
          status = ChainTxStatus.confirmed;
          block_number = some receipt.block_number;
          confirmed_at = some now;
        }
        else record row { status = ChainTxStatus.failed })

abbrev pub check_hash :
    SettlementEngine
    → SettlementClient
    → ℕ
    → Timestamp
    → ChainSettlement
    → Option String
    → Option ChainSettlement
check_hash engine client latest now row none = some row
check_hash engine client latest now row (some hash) = elim (client.get_receipt hash) [
  | none ↦ none
  | some receipt ↦ some (by_receipt engine latest now row receipt)
]

abbrev pub check_sent :
    SettlementEngine
    → SettlementClient
    → ℕ
    → Timestamp
    → ChainSettlement
    → Option String
    → Option ChainSettlement
check_sent engine client latest now row none = some row
check_sent engine client latest now row (some hash) =
    check_hash engine client latest now
      (record row {
        status = ChainTxStatus.submitted;
        tx_hash = some hash;
        submitted_at = some now;
      })
      (some hash)

-- The body of the loop of `_recover`.
unfoldable pub recover_row :
    SettlementEngine → SettlementClient → ℕ → Timestamp → ChainSettlement → Option ChainSettlement
recover_row engine client latest now row =
    if not (is_inflight row.status)
    then some row
    else (if wants_broadcast row
        then check_sent engine client latest now row (client.send row)
        else check_hash engine client latest now row row.tx_hash)

abbrev pub release : ChainSettlement → List ProviderSettlement → List ProviderSettlement
release row reservations =
    if is_live row.status
    then reservations
    else filter (λ r. not (r.settlement_id == row.id)) reservations

abbrev pub Tables : Type 0
Tables = List ChainSettlement × List ProviderSettlement

abbrev pub recovered : ChainSettlement → Option ChainSettlement → Option Tables → Option Tables
recovered row none rest = none
recovered row (some next) none = none
recovered row (some next) (some (rows, reservations)) =
    some (next ∷ rows, if is_inflight row.status then release next reservations else reservations)

unfoldable pub recover_rows :
    SettlementEngine
    → SettlementClient
    → ℕ
    → Timestamp
    → List ChainSettlement
    → List ProviderSettlement
    → Option Tables
recover_rows engine client latest now [] reservations = some ([], reservations)
recover_rows engine client latest now (row ∷ rows) reservations =
    recovered row (recover_row engine client latest now row)
      (recover_rows engine client latest now rows reservations)

abbrev pub with_tables : Books → Option Tables → Option Books
with_tables books none = none
with_tables books (some (rows, reservations)) =
    some (record books { settlements = rows; reservations = reservations })

-- `_recover`; the head of the chain is only asked for when a row is in flight.
unfoldable pub recover : SettlementEngine → SettlementClient → Timestamp → Books → Option Books
recover engine client now books =
    if not (has_inflight books) then some books else elim client.latest_block [
      | none ↦ none
      | some latest ↦
          with_tables books
            (recover_rows engine client latest now books.settlements books.reservations)
    ]
