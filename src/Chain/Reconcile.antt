-- ===== src/Chain/Reconcile.antt =====
-- api/app/chain/reconcile.py: the reconciliation of the ledger with the chain. What the chain's
-- client answers is a parameter, where `none` stands for the ChainError that it raises. Wallets are
-- in lowercase. The log lines are left out, and the severity, which is always "critical".
pub mod Overpay
pub mod Clean
pub mod Explained
mod Tests
use gridix_infra.Chain.Events.{ChainEvent, EventName}
use gridix_infra.Chain.Units.{to_units}
use gridix_infra.Chain.Watcher.{Wallet, developer_for}
use gridix_infra.Chain.Settlement.{
  ChainSettlement, ChainTxStatus, ProviderSettlement, TxPayload, settle_batch, deposit_settlement,
  debit_escrow, Books,
}
use gridix_infra.Chain.Settlement.Batch.{refs_of, is_provider_entry}
use gridix_infra.Chain.Settlement.Debits.{is_consumption}
use gridix_infra.Ledger.{account_balance, sum_if}
use gridix_infra.Models.{LedgerAccount}
use gridix_infra.Models.Rows.{LedgerEntry, Timestamp, Uuid}
use gridix_infra.Prelude.{
  ℕ, Bool, true, false, not, ◌&&◌, ◌==◌, ◌+◌, ltb, Option, none, some, String, List, [], ◌∷◌, ◌++◌,
  any, if◌then◌else◌, or_default, str_eq, opt_is, length,
}
use gridix_infra.Prelude.Int.{ℤ, pos, ◌+ℤ◌, ◌-ℤ◌, eqb_ℤ, ltb_ℤ}

pub data DivergenceKind : Type 0 where
  developer_escrow provider_settled provider_overpay : DivergenceKind

pub record Divergence : Type 0 where
  pub kind : DivergenceKind
  pub subject : String
  pub expected : ℤ
  pub actual : ℤ

-- What a check finds, or the exception that ends it.
pub data Check : Type 0 where
  found : List Divergence → Check
  chain_error value_error : Check

-- The first exception wins.
abbrev pub join : Check → Check → Check
join (found ds) (found es) = found (ds ++ es)
join (found ds) chain_error = chain_error
join (found ds) value_error = value_error
join chain_error rest = chain_error
join value_error rest = value_error

-- A provider's id and linked wallet.
pub record ProviderWallet : Type 0 where
  pub provider_id : Uuid
  pub wallet_address : String

-- `Reconciler`, and the tables that it reads.
pub record Reconciler : Type 0 where
  pub usdc_decimals : ℕ
  pub entries : List LedgerEntry
  pub books : Books
  pub events : List ChainEvent
  pub developers : List Wallet
  pub providers : List ProviderWallet

-- The gauges that `run` sets.
pub record Gauges : Type 0 where
  pub divergence : ℕ
  pub reconcile_timestamp : Timestamp

abbrev pub is_confirmed : ChainTxStatus → Bool
is_confirmed ChainTxStatus.confirmed = true
is_confirmed _ = false

abbrev pub is_settled : EventName → Bool
is_settled EventName.settled = true
is_settled _ = false

abbrev pub note_if : Bool → Divergence → List Divergence
note_if true d = d ∷ []
note_if false d = []

-- `_recorded_settled_by_provider`
abbrev pub confirmed_units : List ChainSettlement → ProviderSettlement → ℕ
confirmed_units rows s =
    if any (λ row. row.id == s.settlement_id && is_confirmed row.status) rows
    then s.amount_units
    else 0

abbrev pub recorded_in : List ChainSettlement → Uuid → List ProviderSettlement → ℕ
recorded_in rows p [] = 0
recorded_in rows p (s ∷ ss) =
    let rest = recorded_in rows p ss in
    if s.provider_id == p then confirmed_units rows s + rest else rest

-- `_observed_settled_by_wallet`
abbrev pub observed_in : String → List ChainEvent → ℕ
observed_in wallet [] = 0
observed_in wallet (ev ∷ evs) =
    let rest = observed_in wallet evs in
    if ev.confirmed && is_settled ev.log.event_name && str_eq ev.log.provider wallet
    then ev.log.amount + rest
    else rest

abbrev pub debit_of : List Wallet → Uuid → TxPayload → ℕ
debit_of wallets dev (settle_batch payees) = 0
debit_of wallets dev (deposit_settlement amount) = 0
debit_of wallets dev (debit_escrow wallet amount) =
    if opt_is (developer_for wallets wallet) dev then amount else 0

-- `_confirmed_debited_by_dev`
abbrev pub confirmed_debited : List Wallet → Uuid → List ChainSettlement → ℕ
confirmed_debited wallets dev [] = 0
confirmed_debited wallets dev (row ∷ rows) =
    let rest = confirmed_debited wallets dev rows in
    if is_confirmed row.status then debit_of wallets dev row.payload + rest else rest

module _ (r : Reconciler) where
  -- `_settled_units_by_dev`
  abbrev pub consumed : Uuid → ℕ
  consumed dev =
      or_default
        (to_units (sum_if (λ e. is_consumption e && opt_is e.account_ref dev) r.entries)
          r.usdc_decimals)
        0

  -- What a developer has on and off hold in the ledger.
  abbrev pub free_and_held : Uuid → ℤ
  free_and_held dev =
      account_balance r.entries LedgerAccount.developer (some dev)
      +ℤ account_balance r.entries LedgerAccount.escrow (some dev)

  abbrev pub expected_of : Uuid → ℕ → ℤ
  expected_of dev units =
      pos (units + consumed dev) -ℤ pos (confirmed_debited r.developers dev r.books.settlements)

  -- The body of the loop of `_check_developers`.
  unfoldable pub check_developer : (String → Option ℕ) → Wallet → Check
  check_developer escrow_balance_of dev =
      elim (to_units (free_and_held dev.developer_id) r.usdc_decimals) [
        | none ↦ value_error
        | some units ↦ elim (escrow_balance_of dev.wallet_address) [
          | none ↦ chain_error
          | some actual ↦
              let expected = expected_of dev.developer_id units in
              found (
                note_if (not (eqb_ℤ (pos actual) expected)) (record {
                  kind = developer_escrow;
                  subject = dev.wallet_address;
                  expected = expected;
                  actual = pos actual;
                }))
        ]
      ]

  unfoldable pub check_developers : (String → Option ℕ) → List Wallet → Check
  check_developers escrow_balance_of [] = found []
  check_developers escrow_balance_of (dev ∷ devs) =
      join (check_developer escrow_balance_of dev) (check_developers escrow_balance_of devs)

  abbrev pub recorded : Uuid → ℕ
  recorded p = recorded_in r.books.settlements p r.books.reservations

  -- `_earned_units_by_provider`, at one provider, and its exception.
  abbrev pub earned_balance : Uuid → ℤ
  earned_balance p = account_balance r.entries LedgerAccount.provider (some p)

  abbrev pub earned : Uuid → ℕ
  earned p = or_default (to_units (earned_balance p) r.usdc_decimals) 0

  abbrev pub has_negative : List Uuid → Bool
  has_negative refs = any (λ p. ltb_ℤ (earned_balance p) (pos 0)) refs

  -- The body of the loop of `_check_providers`.
  unfoldable pub check_provider : ProviderWallet → List Divergence
  check_provider p =
      let rec = recorded p.provider_id in
      let obs = observed_in p.wallet_address r.events in
      note_if (not (rec == obs)) (record {
        kind = provider_settled;
        subject = p.wallet_address;
        expected = pos rec;
        actual = pos obs;
      })
      ++ note_if (ltb (earned p.provider_id) rec) (record {
        kind = provider_overpay;
        subject = p.wallet_address;
        expected = pos (earned p.provider_id);
        actual = pos rec;
      })

  abbrev pub check_all : List ProviderWallet → List Divergence
  check_all [] = []
  check_all (p ∷ ps) = check_provider p ++ check_all ps

  unfoldable pub check_providers : Check
  check_providers =
      if has_negative (refs_of is_provider_entry r.entries)
      then value_error
      else found (check_all r.providers)

  -- `_reconcile`
  unfoldable pub reconcile : (String → Option ℕ) → Check
  reconcile escrow_balance_of =
      join (check_developers escrow_balance_of r.developers) check_providers

-- `run`: a ChainError is caught and leaves the gauges; `none` stands for the ValueError.
abbrev pub report : Timestamp → Gauges → Check → Option (List Divergence × Gauges)
report now gauges (found ds) =
    some (ds, record { divergence = length ds; reconcile_timestamp = now })
report now gauges chain_error = some ([], gauges)
report now gauges value_error = none

unfoldable pub run :
    Reconciler → (String → Option ℕ) → Timestamp → Gauges → Option (List Divergence × Gauges)
run r escrow_balance_of now gauges = report now gauges (reconcile r escrow_balance_of)
