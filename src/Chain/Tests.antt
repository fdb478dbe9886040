-- ===== src/Chain/Tests.antt =====
-- A deposit of 5 USDC that is mirrored, and undone when its block is reorganised away.
use gridix_infra.Ledger.{post_transaction, account_balance}
use gridix_infra.Session.{IsSaved, commit, rollback}
use gridix_infra.Chain.Watcher.{
  ChainWatcher, Wallet, World, tick, scan, handle_reorg, ingest_logs, undo, reverse_effect,
  apply_confirmed, confirm_all, confirm, apply_effect, developer_for,
}
use gridix_infra.Chain.Events.{ChainLog, ChainClient, EventName}
use gridix_infra.Prelude.{ℕ, [], ◌∷◌, none, some, ◌≡◌, refl, List, arith, ◌<◌, ◌+◌, ◌^◌, ◌-◌}
use gridix_infra.Prelude.Int.{pos, ◌+ℤ◌, ◌-ℤ◌, ◌≤ℤ◌, pos_part}
use gridix_infra.Models.{LedgerAccount}
use gridix_infra.Chain.Units.{units_roundtrip, to_units, from_units}
use gridix_infra.Chain.Watcher.Ticks.{tick-Mirrors, Mirrors}
use gridix_infra.Chain.Watcher.Finality.{tick-AllDeep, AllDeep}

abbrev six_decimals : ChainWatcher
six_decimals = record { usdc_decimals = 6; confirmations = 2; start_block = 1; reorg_window = 4 }

abbrev linked : List Wallet
linked = record { developer_id = 7; wallet_address = "0xa" } ∷ []

abbrev deposit : ChainLog
deposit = record {
  event_name = EventName.deposited;
  tx_hash = "0x1";
  log_index = 0;
  block_number = 3;
  block_hash = "b3";
  address = "0xe";
  developer = "0xa";
  provider = "";
  amount = 5_000_000;
}

-- Every block has the hash of block 3; the chain then holds one log.
abbrev before_reorg : ChainClient
before_reorg = record {
  latest_block = some 4;
  get_block = λ n. some "b3";
  get_logs = λ m n. some (deposit ∷ []);
}

abbrev after_reorg : ChainClient
after_reorg = record {
  latest_block = some 5;
  get_block = λ n. some "c3";
  get_logs = λ m n. some [];
}

abbrev no_events : World
no_events = record {
  session = record { entries = []; committed = []; next_uuid = 0 };
  events = [];
  cursor = none;
}

abbrev credited : World
credited = tick six_decimals linked before_reorg no_events

credited_balance :
    account_balance credited.session.entries LedgerAccount.developer (some 7) ≡ pos 500_000_000
unfolding tick scan handle_reorg ingest_logs apply_confirmed confirm_all confirm apply_effect
    developer_for post_transaction account_balance from_units commit ◌+ℤ◌ ◌-ℤ◌
credited_balance = refl

reorg_undoes :
    account_balance
      (tick six_decimals linked after_reorg credited).session.entries
      LedgerAccount.developer
      (some 7)
    ≡ pos 0
unfolding tick scan handle_reorg undo reverse_effect ingest_logs apply_confirmed confirm_all confirm
    apply_effect developer_for post_transaction account_balance from_units commit ◌+ℤ◌ ◌-ℤ◌
reorg_undoes = refl

-- The deposit's transaction is mined again, in another block 3.
abbrev mined_again : ChainClient
mined_again = record {
  latest_block = some 5;
  get_block = λ n. some "c3";
  get_logs = λ m n. some (record deposit { block_hash = "c3" } ∷ []);
}

-- The tick that drops the orphan does not see it; the next one credits it.
credited_later :
    let once = tick six_decimals linked mined_again credited in
    (once.events ≡ [])
    × (account_balance
          (tick six_decimals linked mined_again once).session.entries
          LedgerAccount.developer
          (some 7)
        ≡ pos 500_000_000)
unfolding tick scan handle_reorg undo reverse_effect ingest_logs apply_confirmed confirm_all confirm
    apply_effect developer_for post_transaction account_balance from_units commit rollback ◌+ℤ◌ ◌-ℤ◌
credited_later = (refl, refl)

-- Two logs with the same key roll the tick back.
twins_refused :
    tick six_decimals linked
      (record before_reorg { get_logs = λ m n. some (deposit ∷ deposit ∷ []) })
      no_events
    ≡ no_events
unfolding tick scan handle_reorg undo reverse_effect ingest_logs apply_confirmed confirm_all confirm
    apply_effect developer_for post_transaction account_balance from_units commit rollback ◌+ℤ◌ ◌-ℤ◌
twins_refused = refl

tick-Mirrors_example : Mirrors six_decimals linked no_events credited × IsSaved credited.session
tick-Mirrors_example = tick-Mirrors six_decimals linked before_reorg no_events refl

tick-AllDeep_example : AllDeep six_decimals 4 credited.events
tick-AllDeep_example =
    tick-AllDeep six_decimals linked before_reorg 4 4 no_events refl (omega arith) tt

units_roundtrip_example :
    ((units : ℕ) → to_units (from_units units 6) 6 ≡ some units)
    × ((n : ℕ)
        → (units : ℕ) × (to_units (pos n) 6 ≡ some units)
          × (from_units units 6 ≤ℤ pos n)
          × (n < pos_part (from_units units 6) + 10 ^ (8 - 6)))
units_roundtrip_example = units_roundtrip 6 (omega arith)
