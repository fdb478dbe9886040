-- ===== src/Chain/Settlement/Tests.antt =====
-- A provider that has earned 5 USD is paid once.
use gridix_infra.Chain.Units.{to_units}
use gridix_infra.Ledger.{account_balance}
use gridix_infra.Chain.Settlement.Covered.{IsCovered}
use gridix_infra.Chain.Settlement.Debits.{settle_tick, maybe_debit, debit_all}
use gridix_infra.Prelude.{[], ◌∷◌, none, some, true, ◌≡◌, refl, String, Option, arith}
use gridix_infra.Prelude.Int.{pos, ◌+ℤ◌, ◌-ℤ◌}
use gridix_infra.Models.{LedgerAccount, credit}
use gridix_infra.Models.Rows.{Uuid, LedgerEntry}
use gridix_infra.Chain.Settlement.{SettlementEngine, SettlementClient, Books, reserved}
use gridix_infra.Chain.Settlement.Recovery.{recover, recover_rows, recover_row}
use gridix_infra.Chain.Settlement.Batch.{maybe_batch, earned_units}
use gridix_infra.Chain.Settlement.Ticks.{settle_tick-IsCovered}

abbrev engine : SettlementEngine
engine = record { usdc_decimals = 6; confirmations = 2; threshold_units = 1; interval = 60 }

abbrev earning : LedgerEntry
earning = record {
  entry_group = 1;
  job_id = some 1;
  account = LedgerAccount.provider;
  account_ref = some 21;
  direction = credit;
  amount = pos 500_000_000;
  reason = "settle";
  tx_hash = none;
}

abbrev wallet_of : Uuid → Option String
wallet_of p = some "0xb"

abbrev open_chain : SettlementClient
open_chain = record {
  latest_block = some 9;
  get_receipt = λ h. some none;
  send = λ row. some "0x2";
  settlement_pool = some 9_000_000;
  get_nonce = some 4;
}

abbrev no_books : Books
no_books = record { settlements = []; reservations = []; last_batch_at = none; next_id = 0 }

-- The second tick finds the first one's reservation.
paid_once :
    reserved
      (settle_tick engine
        (earning ∷ [])
        []
        wallet_of
        open_chain
        true
        70
        (settle_tick engine (earning ∷ []) [] wallet_of open_chain true 5 no_books))
      21
    ≡ 5_000_000
unfolding settle_tick recover recover_rows recover_row maybe_batch maybe_debit debit_all
    earned_units account_balance to_units ◌+ℤ◌ ◌-ℤ◌
paid_once = refl

settle_tick-IsCovered_example :
    IsCovered engine
      (earning ∷ [])
      (settle_tick engine (earning ∷ []) [] wallet_of open_chain true 5 no_books)
settle_tick-IsCovered_example =
    settle_tick-IsCovered engine (earning ∷ []) wallet_of [] open_chain true 5 no_books
      (λ p. omega arith, tt)
