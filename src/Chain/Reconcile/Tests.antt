-- ===== src/Chain/Reconcile/Tests.antt =====
-- A provider that has earned 5 USD is paid, and the reconciliation finds no payment above that.
use gridix_infra.Chain.Reconcile.Explained.{IsMatched, IsSolvent, IsSettled, reconcile_clean_iff}
use gridix_infra.Chain.Settlement.Debits.{settle_tick, maybe_debit}
use gridix_infra.Ledger.{account_balance}
use gridix_infra.Prelude.Int.{◌+ℤ◌, ◌-ℤ◌}
use gridix_infra.Chain.Units.{to_units}
use gridix_infra.Chain.Settlement.{SettlementEngine, SettlementClient}
use gridix_infra.Chain.Settlement.Recovery.{recover, recover_rows, recover_row}
use gridix_infra.Chain.Settlement.Batch.{maybe_batch, earned_units, refs_of, is_provider_entry}
use gridix_infra.Chain.Reconcile.Overpay.{after_tick, is_overpay, never_overpaid}
use gridix_infra.Chain.Reconcile.{
  Divergence, Gauges, Reconciler, run, pos, provider_settled, reconcile, check_developers,
  check_developer, check_providers, check_provider, found,
}
use gridix_infra.Models.{LedgerAccount, credit}
use gridix_infra.Models.Rows.{LedgerEntry, Uuid}
use gridix_infra.Prelude.{
  [], ◌∷◌, none, some, true, refl, arith, Option, ◌≡◌, String, All, false, ◌↔◌,
}

abbrev engine : SettlementEngine
engine = record { usdc_decimals = 6; confirmations = 2; threshold_units = 1; interval = 60 }

abbrev earning : LedgerEntry
earning = record {
  entry_group = 1;
  job_id = some 1;
  account = LedgerAccount.provider;
  account_ref = some 21;
  direction = credit;
  amount = pos 500_000_000;
  reason = "settle";
  tx_hash = none;
}

abbrev wallet_of : Uuid → Option String
wallet_of p = some "0xb"

abbrev mined : SettlementClient
mined = record {
  latest_block = some 9;
  get_receipt = λ h. some (some (record { status = 1; block_number = 8 }));
  send = λ row. some "0x2";
  settlement_pool = some 9_000_000;
  get_nonce = some 4;
}

abbrev reconciler : Reconciler
reconciler = record {
  usdc_decimals = 6;
  entries = earning ∷ [];
  books = record { settlements = []; reservations = []; last_batch_at = none; next_id = 0 };
  events = [];
  developers = record { developer_id = 7; wallet_address = "0xa" } ∷ [];
  providers = record { provider_id = 21; wallet_address = "0xb" } ∷ [];
}

abbrev no_gauges : Gauges
no_gauges = record { divergence = 0; reconcile_timestamp = 0 }

-- The payment is confirmed, and its event not seen yet.
abbrev unseen : Divergence
unseen = record {
  kind = provider_settled;
  subject = "0xb";
  expected = pos 5_000_000;
  actual = pos 0;
}

found_unseen :
    run (after_tick engine wallet_of mined true 5 reconciler) (λ w. some 0) 6 no_gauges
    ≡ some (unseen ∷ [], record { divergence = 1; reconcile_timestamp = 6 })
unfolding run reconcile check_developers check_developer to_units ◌+ℤ◌ account_balance ◌-ℤ◌
    check_providers settle_tick recover maybe_batch earned_units maybe_debit recover_rows
    recover_row check_provider
found_unseen = refl

never_overpaid_example : All (λ d. is_overpay d.kind ≡ false) (unseen ∷ [])
never_overpaid_example =
    never_overpaid engine reconciler wallet_of mined true 5 6 (λ w. some 0) no_gauges
      (record { divergence = 1; reconcile_timestamp = 6 }) (unseen ∷ []) refl (λ p. omega arith, tt)
      found_unseen

-- Before the tick there is nothing to find.
reconcile_clean_iff_example : (reconcile reconciler (λ w. some 0) ≡ found []) ↔ (
    All (IsMatched reconciler (λ w. some 0)) reconciler.developers
    × All (IsSolvent reconciler (λ w. some 0)) (refs_of is_provider_entry reconciler.entries)
    × All (IsSettled reconciler) reconciler.providers)
reconcile_clean_iff_example = reconcile_clean_iff reconciler (λ w. some 0)
