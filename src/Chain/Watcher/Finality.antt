-- ===== src/Chain/Watcher/Finality.antt =====
-- Nothing shallow is applied.
use gridix_infra.Prelude.Sort.{All-sort_by}
use gridix_infra.Session.{Session, Result}
use gridix_infra.Chain.Watcher.Table.{
  confirmed_of, applied_of, table_of, kept_of, finish_result, scan_result, pending_of,
}
use gridix_infra.Chain.Events.{
  ChainEvent, ChainLog, ChainClient, ChainCursor, order_events, precedes, has_twins, new_rows,
  is_seen,
}
use gridix_infra.Chain.Watcher.{
  ChainWatcher, Wallet, ingest_logs, tick, World, start_cursor, finish, ok, scan, frontier,
  window_of,
}
use mathlib.Core.Path.{subst}
use gridix_infra.Prelude.{
  [], ◌∷◌, some, true, inl, inr, ◌≡◌, refl, ℕ, List, Bool, All, ◌≤◌, not, ◌||◌, arith, filter,
  Bool-cases, leb, All-append, ◌+◌, All-sublist, Option, All-map, Option-cases, sym, map, ◌++◌,
  false,
}

-- A processed event is buried below a head.
abbrev is_deep : ChainWatcher → ℕ → ChainEvent → Bool
is_deep watcher top e =
    not e.processed || leb (watcher.confirmations + e.log.block_number) (top + 1)

abbrev pub AllDeep : ChainWatcher → ℕ → List ChainEvent → Type 0
AllDeep watcher top evs = All (λ e. is_deep watcher top e ≡ true) evs

module _ (watcher : ChainWatcher) (wallets : List Wallet) where
  confirmed_of-deep :
      (latest top : ℕ) (ev : ChainEvent)
      → latest ≤ top
      → is_deep watcher top ev ≡ true
      → is_deep watcher top (confirmed_of watcher wallets latest ev) ≡ true
  confirmed_of-deep latest top ev le h = ground arith

  applied_of-AllDeep :
      (latest top : ℕ) (evs : List ChainEvent)
      → latest ≤ top
      → AllDeep watcher top evs
      → AllDeep watcher top (applied_of watcher wallets latest evs)
  applied_of-AllDeep latest top evs le hs =
      let deep : ChainEvent → Type 0 = λ e. is_deep watcher top e ≡ true in
      let new = filter (λ e. not e.processed) evs in
      All-append deep (filter (λ e. e.processed) evs) _ (All-sublist deep (λ e. e.processed) evs hs)
        (All-map deep (confirmed_of watcher wallets latest) (order_events new)
          (λ e h. confirmed_of-deep latest top e le h)
          (All-sort_by precedes deep new (All-sublist deep (λ e. not e.processed) evs hs)))

  fresh-AllDeep :
      (top : ℕ) (logs : List ChainLog)
      → AllDeep watcher top
          (map (λ log. record { log = log; confirmed = false; processed = false }) logs)
  fresh-AllDeep top [] = tt
  fresh-AllDeep top (log ∷ logs) = (refl, fresh-AllDeep top logs)

  ingested-AllDeep :
      (client : ChainClient) (latest top : ℕ) (cursor : ChainCursor) (rows evs : List ChainEvent)
      (w : World) (t : Session)
      → latest ≤ top
      → AllDeep watcher top evs
      → AllDeep watcher top w.events
      → AllDeep watcher top
          (finish w (
            ok (
                table_of watcher wallets latest
                  (ingest_logs watcher client latest cursor rows evs)),
            t,
          )).events
  unfolding ingest_logs
  ingested-AllDeep client latest top cursor rows evs w t le hs ws =
      elim (Bool-cases (leb (frontier watcher cursor) latest)) [
        | inl e ↦ elim (Option-cases (client.get_logs (frontier watcher cursor) latest)) [
          | inl f ↦ rw (e, f) ws
          | inr (logs, f) ↦ elim (Option-cases (client.get_block latest)) [
            | inl g ↦ rw (e, f, g) ws
            | inr (head, g) ↦ elim (Bool-cases (has_twins (new_rows rows logs))) [
              | inl h ↦ rw (e, f, g, h) ws
              | inr h ↦
                  rw (e, f, g, h)
                    (applied_of-AllDeep latest top (evs ++ new_rows rows logs) le (
                      All-append (λ e. is_deep watcher top e ≡ true) evs _ hs
                        (fresh-AllDeep top (filter (λ log. not (is_seen rows log)) logs))))
            ]
          ]
        ]
        | inr e ↦ rw e (applied_of-AllDeep latest top evs le hs)
      ]

  -- No event is applied before its block has the required number of confirmations: when the head
  -- of the chain is not above a height, and every processed event of the table is buried deep
  -- enough below that height, so is every processed event after the tick, whatever logs and hashes
  -- the chain's client answers.
  pub tick-AllDeep :
      (client : ChainClient) (latest top : ℕ) (w : World)
      → client.latest_block ≡ some latest
      → latest ≤ top
      → AllDeep watcher top w.events
      → AllDeep watcher top (tick watcher wallets client w).events
  unfolding tick
  tick-AllDeep client latest top w head le ws =
      let start = start_cursor watcher latest w.cursor in
      let run : Option ℕ → Result (Option (List ChainEvent × ChainCursor)) × Session =
        λ h. scan watcher wallets client w.cursor w.events h w.session in
      let deep =
        ingested-AllDeep client latest top start
          (kept_of watcher wallets client (window_of watcher start) latest w.events
            ++ pending_of watcher wallets client latest w)
          (kept_of watcher wallets client (window_of watcher start) latest w.events) w
          (run (some latest)).1 le (All-sublist (λ e. is_deep watcher top e ≡ true) _ w.events ws)
          ws in
      let same =
        finish_result watcher wallets w (run (some latest)) _
          (scan_result watcher wallets client latest w) in
      subst (λ h. AllDeep watcher top (finish w (run h)).events) (sym head)
        (subst (λ v. AllDeep watcher top v.events) (sym same) deep)
