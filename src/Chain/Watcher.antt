-- ===== src/Chain/Watcher.antt =====
-- api/app/chain/watcher.py: one tick of the watcher that mirrors the events of two contracts into
-- the ledger. The chain's client is a parameter: what it answers during the tick, where `none`
-- stands for the ChainError that it raises. Wallets are in lowercase, as the client decodes them.
-- The counts that a tick reports and logs (ScanResult) are left out; nothing reads them back.
pub mod Runs
pub mod Mirror
pub mod Ticks
pub mod Table
pub mod Finality
use gridix_infra.Chain.Events.{
  EventName, ChainLog, ChainClient, ChainEvent, ChainCursor, is_effectful, order_events, ingest,
}
use gridix_infra.Prelude.{
  ℕ, Bool, true, false, not, ◌&&◌, ◌||◌, ◌==◌, ◌+◌, ◌-◌, Option, none, some, String, List, [], ◌∷◌,
  ◌++◌, filter, any, find, leb, ltb, if◌then◌else◌, str_eq, is_some,
}
use gridix_infra.Models.{LedgerAccount}
use gridix_infra.Models.Rows.{Uuid}
use gridix_infra.Session.{Session, Result, ok, err, Action, pure, ◌>>=◌, ◌>>◌, commit, rollback}
use gridix_infra.Ledger.{post_transaction}
use gridix_infra.Ledger.Balances.{legs}
use gridix_infra.Chain.Units.{from_units}

pub record ChainWatcher : Type 0 where
  pub usdc_decimals : ℕ
  pub confirmations : ℕ
  pub start_block : ℕ
  pub reorg_window : ℕ

-- A developer's id and linked wallet.
pub record Wallet : Type 0 where
  pub developer_id : Uuid
  pub wallet_address : String

-- `_developer_for`
abbrev pub owner_in : Option Wallet → Option Uuid
owner_in none = none
owner_in (some w) = some w.developer_id

unfoldable pub developer_for : List Wallet → String → Option Uuid
developer_for wallets wallet = owner_in (find (λ w. str_eq w.wallet_address wallet) wallets)

-- A deposit moves protocol money to the developer, a withdrawal takes it back.
abbrev pub deposit_post : EventName → ChainLog → ℕ → Uuid → Action (Unit {0})
deposit_post EventName.deposited log decimals dev = do
  post_transaction
      (legs LedgerAccount.protocol none LedgerAccount.developer (some dev)
        (from_units log.amount decimals))
      "chain_deposit" none (some log.tx_hash)
  pure tt
deposit_post EventName.withdrawn log decimals dev = do
  post_transaction
      (legs LedgerAccount.developer (some dev) LedgerAccount.protocol none
        (from_units log.amount decimals))
      "chain_withdraw" none (some log.tx_hash)
  pure tt
deposit_post _ log decimals dev = pure tt

abbrev pub apply_for : ChainWatcher → ChainLog → Option Uuid → Action (Unit {0})
apply_for watcher log none = pure tt
apply_for watcher log (some dev) = deposit_post log.event_name log watcher.usdc_decimals dev

-- `_apply_effect`; an event of a wallet that nobody has linked has no effect.
unfoldable pub apply_effect : ChainWatcher → List Wallet → ChainLog → Action (Unit {0})
apply_effect watcher wallets log = apply_for watcher log (developer_for wallets log.developer)

abbrev pub reverse_post : EventName → ChainLog → ℕ → Uuid → Action (Unit {0})
reverse_post EventName.deposited log decimals dev = do
  post_transaction
      (legs LedgerAccount.developer (some dev) LedgerAccount.protocol none
        (from_units log.amount decimals))
      "reorg_reverse_deposited" none (some log.tx_hash)
  pure tt
reverse_post _ log decimals dev = do
  post_transaction
      (legs LedgerAccount.protocol none LedgerAccount.developer (some dev)
        (from_units log.amount decimals))
      "reorg_reverse_withdrawn" none (some log.tx_hash)
  pure tt

abbrev pub reverse_for : ChainWatcher → ChainLog → Option Uuid → Action (Unit {0})
reverse_for watcher log none = pure tt
reverse_for watcher log (some dev) = reverse_post log.event_name log watcher.usdc_decimals dev

-- `_reverse_effect`
unfoldable pub reverse_effect : ChainWatcher → List Wallet → ChainLog → Action (Unit {0})
reverse_effect watcher wallets log = reverse_for watcher log (developer_for wallets log.developer)

-- A block above the head, or one that the client cannot give, has no canonical hash.
abbrev pub canonical : ChainClient → ℕ → ChainLog → Bool
canonical client latest log = elim (client.get_block log.block_number) [
  | none ↦ false
  | some hash ↦ leb log.block_number latest && str_eq hash log.block_hash
]

abbrev pub is_orphan : ChainClient → ℕ → ℕ → ChainEvent → Bool
is_orphan client window_start latest ev =
    leb window_start ev.log.block_number && not (canonical client latest ev.log)

module _ (watcher : ChainWatcher) (wallets : List Wallet) where
  -- What an orphaned event undoes before its row is deleted.
  unfoldable pub undo : ChainEvent → Action (Unit {0})
  undo ev =
      if ev.processed && is_effectful ev.log.event_name
      then reverse_effect watcher wallets ev.log
      else pure tt

  -- `_handle_reorg`: the events that stay.
  unfoldable pub handle_reorg : ChainClient → ℕ → ℕ → List ChainEvent → Action (List ChainEvent)
  handle_reorg client window_start latest [] = pure []
  handle_reorg client window_start latest (ev ∷ evs) = do
    let orphan = is_orphan client window_start latest ev
    if orphan then undo ev else pure tt
    kept ← handle_reorg client window_start latest evs
    pure (if orphan then kept else ev ∷ kept)

  -- Reversing an effect posts, and so flushes the session, where the wallet is linked.
  abbrev pub flushes : ChainEvent → Bool
  flushes ev =
      ev.processed
      && is_effectful ev.log.event_name
      && is_some (developer_for wallets ev.log.developer)

  -- The orphans whose deletion `_handle_reorg` leaves pending: without autoflush, queries still find
  -- their rows. `pending` are those so far.
  abbrev pub unflushed : ChainClient → ℕ → ℕ → List ChainEvent → List ChainEvent → List ChainEvent
  unflushed client window_start latest pending [] = pending
  unflushed client window_start latest pending (ev ∷ evs) =
      unflushed client window_start latest
        (if is_orphan client window_start latest ev
          then ev ∷ (if flushes ev then [] else pending)
          else pending)
        evs

  -- The body of the loop of `_apply_confirmed`.
  unfoldable pub confirm : ℕ → ChainEvent → Action ChainEvent
  confirm latest ev =
      if ltb (latest + 1) (watcher.confirmations + ev.log.block_number) then pure ev else do
        if is_effectful ev.log.event_name then apply_effect watcher wallets ev.log else pure tt
        pure (record ev { confirmed = true; processed = true })

  unfoldable pub confirm_all : ℕ → List ChainEvent → Action (List ChainEvent)
  confirm_all latest [] = pure []
  confirm_all latest (ev ∷ evs) = do
    done ← confirm latest ev
    rest ← confirm_all latest evs
    pure (done ∷ rest)

-- `_apply_confirmed`. The table has no order: the rows that are scanned come last here.
unfoldable pub apply_confirmed :
    ChainWatcher → List Wallet → ℕ → List ChainEvent → Action (List ChainEvent)
apply_confirmed watcher wallets latest events = do
  scanned ← confirm_all watcher wallets latest (order_events (filter (λ e. not e.processed) events))
  pure (filter (λ e. e.processed) events ++ scanned)

abbrev pub max_ℕ : ℕ → ℕ → ℕ
max_ℕ a b = if ltb a b then b else a

abbrev pub start_cursor : ChainWatcher → ℕ → Option ChainCursor → ChainCursor
start_cursor watcher latest (some cursor) = cursor
start_cursor watcher latest none = record {
  last_scanned_block = if ltb 0 watcher.start_block then watcher.start_block else latest - 1;
  head_block_hash = none;
}

-- `max(1, last_scanned_block - reorg_window + 1)`
abbrev pub window_of : ChainWatcher → ChainCursor → ℕ
window_of watcher cursor = max_ℕ 1 (cursor.last_scanned_block + 1 - watcher.reorg_window)

-- `min(last_scanned_block + 1, window_start)`
abbrev pub frontier : ChainWatcher → ChainCursor → ℕ
frontier watcher cursor =
    if ltb (window_of watcher cursor) (cursor.last_scanned_block + 1)
    then window_of watcher cursor
    else cursor.last_scanned_block + 1

pub record World : Type 0 where
  pub session : Session
  pub events : List ChainEvent
  pub cursor : Option ChainCursor

abbrev pub with_cursor :
    ℕ → String → Option (List ChainEvent) → Option (List ChainEvent × ChainCursor)
with_cursor latest head none = none
with_cursor latest head (some events) =
    some (events, record { last_scanned_block = latest; head_block_hash = some head })

-- What the logs up to the head add to the events that stay; `none` where the client or the flush
-- raises. `rows` are the rows that a query still finds.
unfoldable pub ingest_logs :
    ChainWatcher
    → ChainClient
    → ℕ
    → ChainCursor
    → List ChainEvent
    → List ChainEvent
    → Option (List ChainEvent × ChainCursor)
ingest_logs watcher client latest cursor rows events =
    if not (leb (frontier watcher cursor) latest)
    then some (events, cursor)
    else elim (client.get_logs (frontier watcher cursor) latest) [
      | none ↦ none
      | some logs ↦ elim (client.get_block latest) [
        | none ↦ none
        | some head ↦ with_cursor latest head (ingest rows logs events)
      ]
    ]

abbrev pub apply_to :
    ChainWatcher
    → List Wallet
    → ℕ
    → Option (List ChainEvent × ChainCursor)
    → Action (Option (List ChainEvent × ChainCursor))
apply_to watcher wallets latest none = pure none
apply_to watcher wallets latest (some (events, cursor)) = do
  done ← apply_confirmed watcher wallets latest events
  pure (some (done, cursor))

-- `_scan`
unfoldable pub scan :
    ChainWatcher
    → List Wallet
    → ChainClient
    → Option ChainCursor
    → List ChainEvent
    → Option ℕ
    → Action (Option (List ChainEvent × ChainCursor))
scan watcher wallets client cursor events none = pure none
scan watcher wallets client cursor events (some latest) = do
  let start = start_cursor watcher latest cursor
  kept ← handle_reorg watcher wallets client (window_of watcher start) latest events
  let pending = unflushed watcher wallets client (window_of watcher start) latest [] events
  apply_to watcher wallets latest (ingest_logs watcher client latest start (kept ++ pending) kept)

-- What a scan that raised leaves is rolled back.
abbrev pub finish : World → Result (Option (List ChainEvent × ChainCursor)) × Session → World
finish w (ok (some (events, cursor)), s) = record {
  session = (commit s).1;
  events = events;
  cursor = some cursor;
}
finish w (ok none, s) = record w { session = rollback s }
finish w (err e, s) = record w { session = rollback s }

unfoldable pub tick : ChainWatcher → List Wallet → ChainClient → World → World
tick watcher wallets client w =
    finish w (scan watcher wallets client w.cursor w.events client.latest_block w.session)
