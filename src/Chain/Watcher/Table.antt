-- ===== src/Chain/Watcher/Table.antt =====
-- The table that a tick leaves.
use gridix_infra.Chain.Watcher.Mirror.{undo-Runs, apply_effect-Runs}
use gridix_infra.Chain.Events.{ChainEvent, ChainClient, order_events, ChainCursor, is_effectful}
use gridix_infra.Chain.Watcher.{
  ChainWatcher, ok, Wallet, handle_reorg, confirm, confirm_all, apply_confirmed, scan, World, undo,
  is_orphan, start_cursor, window_of, apply_to, ingest_logs, finish, apply_effect, unflushed,
}
use gridix_infra.Session.{Action, Session, ◌>>=◌, then_ok, Result, pure, ◌>>◌}
use gridix_infra.Prelude.{
  [], ◌∷◌, none, some, true, false, inl, inr, ◌≡◌, refl, ap, List, Bool, ℕ, if◌then◌else◌, filter,
  Bool-cases, map, Option, not, ltb, ◌++◌, ◌+◌,
}

-- What a chain returns, when its first part returns.
bind_result :
    {A B : Type 0} (m : Action A) (f : A → Action B) (a : A) (b : B) (s : Session)
    → (m s).0 ≡ ok a
    → ((t : Session) → (f a t).0 ≡ ok b)
    → ((m >>= f) s).0 ≡ ok b
bind_result m f a b s e h = rw (then_ok m f a s e) (h (m s).1)

module _ (watcher : ChainWatcher) (wallets : List Wallet) where
  undo_result : (ev : ChainEvent) (s : Session) → (undo watcher wallets ev s).0 ≡ ok tt
  undo_result ev s = ap (λ r. r.0) (undo-Runs watcher wallets ev s).runs

  reorg_step_result :
      (orphan : Bool) (ev : ChainEvent) (rest : Action (List ChainEvent)) (kept : List ChainEvent)
      (s : Session)
      → ((t : Session) → (rest t).0 ≡ ok kept)
      → (((if orphan then undo watcher wallets ev else pure tt)
            >> (rest >>= λ evs. pure (if orphan then evs else ev ∷ evs)))
          s).0
        ≡ ok (if not orphan then ev ∷ kept else kept)
  reorg_step_result true ev rest kept s h =
      bind_result (undo watcher wallets ev) (λ _. rest >>= λ evs. pure evs) tt kept s
        (undo_result ev s) (λ t. bind_result rest (λ evs. pure evs) kept kept t (h t) (λ u. refl))
  reorg_step_result false ev rest kept s h =
      bind_result rest (λ evs. pure (ev ∷ evs)) kept (ev ∷ kept) s (h s) (λ u. refl)

  -- The events that are no orphans.
  abbrev pub kept_of : ChainClient → ℕ → ℕ → List ChainEvent → List ChainEvent
  kept_of client window_start latest evs =
      filter (λ e. not (is_orphan client window_start latest e)) evs

  handle_reorg_result :
      (client : ChainClient) (window_start latest : ℕ) (evs : List ChainEvent) (s : Session)
      → (handle_reorg watcher wallets client window_start latest evs s).0
        ≡ ok (kept_of client window_start latest evs)
  unfolding handle_reorg
  handle_reorg_result client window_start latest [] s = refl
  handle_reorg_result client window_start latest (ev ∷ evs) s =
      reorg_step_result (is_orphan client window_start latest ev) ev
        (handle_reorg watcher wallets client window_start latest evs)
        (kept_of client window_start latest evs) s
        (handle_reorg_result client window_start latest evs)

  abbrev pub confirmed_of : ℕ → ChainEvent → ChainEvent
  confirmed_of latest ev =
      if ltb (latest + 1) (watcher.confirmations + ev.log.block_number)
      then ev
      else record ev { confirmed = true; processed = true }

  confirm_result :
      (latest : ℕ) (ev : ChainEvent) (s : Session)
      → (confirm watcher wallets latest ev s).0 ≡ ok (confirmed_of latest ev)
  unfolding confirm
  confirm_result latest ev s =
      elim (Bool-cases (ltb (latest + 1) (watcher.confirmations + ev.log.block_number))) [
        | inl shallow ↦ rw shallow refl
        | inr deep ↦ elim (Bool-cases (is_effectful ev.log.event_name)) [
          | inl e ↦
              rw (deep, e)
                (bind_result (apply_effect watcher wallets ev.log)
                  (λ _. pure (record ev { confirmed = true; processed = true })) tt _ s
                  (ap (λ r. r.0) (apply_effect-Runs watcher wallets ev.log s).runs) (λ t. refl))
          | inr e ↦ rw (deep, e) refl
        ]
      ]

  confirm_all_result :
      (latest : ℕ) (evs : List ChainEvent) (s : Session)
      → (confirm_all watcher wallets latest evs s).0 ≡ ok (map (confirmed_of latest) evs)
  unfolding confirm_all
  confirm_all_result latest [] s = refl
  confirm_all_result latest (ev ∷ evs) s =
      bind_result (confirm watcher wallets latest ev)
        (λ done. confirm_all watcher wallets latest evs >>= λ rest. pure (done ∷ rest))
        (confirmed_of latest ev) _ s (confirm_result latest ev s)
        (λ t.
          bind_result (confirm_all watcher wallets latest evs)
            (λ rest. pure (confirmed_of latest ev ∷ rest)) (map (confirmed_of latest) evs) _ t
            (confirm_all_result latest evs t) (λ u. refl))

  abbrev pub applied_of : ℕ → List ChainEvent → List ChainEvent
  applied_of latest evs =
      filter (λ e. e.processed) evs
      ++ map (confirmed_of latest) (order_events (filter (λ e. not e.processed) evs))

  apply_confirmed_result :
      (latest : ℕ) (evs : List ChainEvent) (s : Session)
      → (apply_confirmed watcher wallets latest evs s).0 ≡ ok (applied_of latest evs)
  unfolding apply_confirmed
  apply_confirmed_result latest evs s =
      bind_result
        (confirm_all watcher wallets latest (order_events (filter (λ e. not e.processed) evs)))
        (λ scanned. pure (filter (λ e. e.processed) evs ++ scanned)) _ _ s
        (confirm_all_result latest (order_events (filter (λ e. not e.processed) evs)) s) (λ t. refl)

  -- The table that a scan leaves.
  abbrev pub table_of :
      ℕ → Option (List ChainEvent × ChainCursor) → Option (List ChainEvent × ChainCursor)
  table_of latest none = none
  table_of latest (some (events, cursor)) = some (applied_of latest events, cursor)

  apply_to_result :
      (latest : ℕ) (o : Option (List ChainEvent × ChainCursor)) (s : Session)
      → (apply_to watcher wallets latest o s).0 ≡ ok (table_of latest o)
  apply_to_result latest none s = refl
  apply_to_result latest (some (events, cursor)) s =
      bind_result (apply_confirmed watcher wallets latest events)
        (λ done. pure (some (done, cursor))) (applied_of latest events) _ s
        (apply_confirmed_result latest events s) (λ t. refl)

  -- The orphans whose rows a query still finds.
  abbrev pub pending_of : ChainClient → ℕ → World → List ChainEvent
  pending_of client latest w =
      unflushed watcher wallets client (window_of watcher (start_cursor watcher latest w.cursor))
        latest [] w.events

  abbrev pub ingested : ChainClient → ℕ → World → Option (List ChainEvent × ChainCursor)
  ingested client latest w =
      let start = start_cursor watcher latest w.cursor in
      let kept = kept_of client (window_of watcher start) latest w.events in
      ingest_logs watcher client latest start (kept ++ pending_of client latest w) kept

  pub scan_result :
      (client : ChainClient) (latest : ℕ) (w : World)
      → (scan watcher wallets client w.cursor w.events (some latest) w.session).0
        ≡ ok (table_of latest (ingested client latest w))
  unfolding scan
  scan_result client latest w =
      let start = start_cursor watcher latest w.cursor in
      bind_result (handle_reorg watcher wallets client (window_of watcher start) latest w.events)
        (λ kept.
          apply_to watcher wallets latest
            (ingest_logs watcher client latest start (kept ++ pending_of client latest w) kept))
        (kept_of client (window_of watcher start) latest w.events) _ w.session
        (handle_reorg_result client (window_of watcher start) latest w.events w.session)
        (apply_to_result latest (ingested client latest w))

  pub finish_result :
      (w : World) (r : Result (Option (List ChainEvent × ChainCursor)) × Session)
      (o : Option (List ChainEvent × ChainCursor))
      → r.0 ≡ ok o
      → finish w r ≡ finish w (ok o, r.1)
  finish_result w r o e = ap (λ x. finish w (x, r.1)) e
