-- ===== src/Chain/Watcher/Ticks.antt =====
-- Whole ticks: the ledger moves by exactly what the table of processed events changes.
use gridix_infra.Ledger.{account_balance}
use gridix_infra.Models.Rows.{Uuid}
use gridix_infra.Models.{LedgerAccount}
use gridix_infra.Chain.Watcher.Mirror.{
  mirrored, handle_reorg-Runs, apply_confirmed-Runs, mirrored-ingest,
}
use gridix_infra.Chain.Watcher.Runs.{Balances}
use gridix_infra.Session.{IsSaved, Action, Session, bind_ok, rollback, pure, commit}
use gridix_infra.Chain.Watcher.{
  ChainWatcher, Wallet, ingest_logs, scan, ok, start_cursor, apply_to, frontier, window_of,
  apply_confirmed, handle_reorg, World, tick, finish, unflushed,
}
use gridix_infra.Chain.Events.{ChainEvent, ChainCursor, ChainClient, has_twins, new_rows}
use gridix_infra.Prelude.{
  none, some, ◌≡◌, ◌∙◌, refl, inl, inr, List, Option, Bool-cases, ℕ, arith, leb, Option-cases, [],
  ◌++◌,
}
use gridix_infra.Prelude.Int.{◌+ℤ◌, ◌-ℤ◌, int_laws}

module _ (watcher : ChainWatcher) (wallets : List Wallet) where
  abbrev Scanned : Type 0
  Scanned = Option (List ChainEvent × ChainCursor)

  -- What the table of an answer stands for, or the given one's where the client raised.
  abbrev table_value : List ChainEvent → Scanned → Balances
  table_value events none c q = mirrored watcher wallets events c q
  table_value events (some answer) c q = mirrored watcher wallets answer.0 c q

  ingest_logs-value :
      (client : ChainClient) (latest : ℕ) (cursor : ChainCursor) (rows kept : List ChainEvent)
      (c : LedgerAccount) (q : Option Uuid)
      → table_value kept (ingest_logs watcher client latest cursor rows kept) c q
        ≡ mirrored watcher wallets kept c q
  unfolding ingest_logs
  ingest_logs-value client latest cursor rows kept c q =
      elim (Bool-cases (leb (frontier watcher cursor) latest)) [
        | inl e ↦ elim (Option-cases (client.get_logs (frontier watcher cursor) latest)) [
          | inl f ↦ rw (e, f) refl
          | inr (logs, f) ↦ elim (Option-cases (client.get_block latest)) [
            | inl g ↦ rw (e, f, g) refl
            | inr (head, g) ↦ elim (Bool-cases (has_twins (new_rows rows logs))) [
              | inl h ↦ rw (e, f, g, h) refl
              | inr h ↦ rw (e, f, g, h) (mirrored-ingest watcher wallets rows logs kept c q)
            ]
          ]
        ]
        | inr e ↦ rw e refl
      ]

  -- A scan that returns, and what its table adds to every balance.
  record Scans (m : Action Scanned) (s : Session) (events : List ChainEvent) : Type 0 where
    answer : Scanned
    after : Session
    runs : m s ≡ (ok answer, after)
    keeps : after.committed ≡ s.committed
    adds :
        (done : List ChainEvent × ChainCursor)
        → answer ≡ some done
        → (c : LedgerAccount) (q : Option Uuid)
        → account_balance after.entries c q
          ≡ account_balance s.entries c q
            +ℤ (mirrored watcher wallets done.0 c q -ℤ mirrored watcher wallets events c q)

  apply_to-Scans :
      (latest : ℕ) (o : Scanned) (s : Session) (kept : List ChainEvent)
      → ((c : LedgerAccount) (q : Option Uuid)
          → table_value kept o c q ≡ mirrored watcher wallets kept c q)
      → Scans (apply_to watcher wallets latest o) s kept
  apply_to-Scans latest none s kept h = record {
    answer = none;
    after = s;
    runs = refl;
    keeps = refl;
    adds = λ done e. absurd (ground (arith, e));
  }
  apply_to-Scans latest (some (events, cursor)) s kept h =
      let run = apply_confirmed-Runs watcher wallets latest events s in
      record {
        answer = some (run.value, cursor);
        after = run.after;
        runs =
            bind_ok (apply_confirmed watcher wallets latest events)
              (λ done. pure (some (done, cursor))) run.value s run.after run.runs;
        keeps = run.keeps;
        adds = λ done e c q.
            let same : run.value ≡ done.0 = ground (arith, e) in
            rw⁻¹ same (rw (run.adds c q, h c q) refl);
      }

  scan-Scans :
      (client : ChainClient) (cursor : Option ChainCursor) (events : List ChainEvent)
      (head : Option ℕ) (s : Session)
      → Scans (scan watcher wallets client cursor events head) s events
  unfolding scan
  scan-Scans client cursor events none s = record {
    answer = none;
    after = s;
    runs = refl;
    keeps = refl;
    adds = λ done e. absurd (ground (arith, e));
  }
  scan-Scans client cursor events (some latest) s =
      let start = start_cursor watcher latest cursor in
      let pending = unflushed watcher wallets client (window_of watcher start) latest [] events in
      let first =
        handle_reorg-Runs watcher wallets client (window_of watcher start) latest events s in
      let rest =
        apply_to-Scans latest
          (ingest_logs watcher client latest start (first.value ++ pending) first.value) first.after
          first.value
          (ingest_logs-value client latest start (first.value ++ pending) first.value) in
      record {
        answer = rest.answer;
        after = rest.after;
        runs =
            bind_ok (handle_reorg watcher wallets client (window_of watcher start) latest events)
              (λ kept.
                apply_to watcher wallets latest
                  (ingest_logs watcher client latest start (kept ++ pending) kept))
              first.value s first.after first.runs
            ∙ rest.runs;
        keeps = rest.keeps ∙ first.keeps;
        adds = λ done e c q. rw (rest.adds done e c q, first.adds c q) (omega int_laws);
      }

  -- The balances of a world move as its table does.
  abbrev pub Mirrors : World → World → Type 0
  Mirrors w v =
      (c : LedgerAccount) (q : Option Uuid)
      → account_balance v.session.entries c q
        ≡ account_balance w.session.entries c q
          +ℤ (mirrored watcher wallets v.events c q -ℤ mirrored watcher wallets w.events c q)

  finish-Mirrors :
      (w : World) (answer : Scanned) (t : Session)
      → IsSaved w.session
      → t.committed ≡ w.session.committed
      → ((done : List ChainEvent × ChainCursor)
          → answer ≡ some done
          → (c : LedgerAccount) (q : Option Uuid)
          → account_balance t.entries c q
            ≡ account_balance w.session.entries c q
              +ℤ (mirrored watcher wallets done.0 c q -ℤ mirrored watcher wallets w.events c q))
      → Mirrors w (finish w (ok answer, t)) × IsSaved (finish w (ok answer, t)).session
  unfolding rollback commit
  finish-Mirrors w none t saved keeps adds = (λ c q. rw (keeps, saved) (omega int_laws), refl)
  finish-Mirrors w (some done) t saved keeps adds = (λ c q. adds done refl c q, refl)

  -- One tick, from a session without pending rows, moves every balance of every account by exactly
  -- what the processed deposits and withdrawals of the table stand for after the tick less what
  -- they stood for before, and leaves no pending rows: whatever the chain's client answers, where
  -- blocks were reorganised, and where the client or the database raises in the middle of a scan. A deposit stands
  -- for a move from the protocol to the developer of its wallet, a withdrawal for a move back, and
  -- an event of a wallet that nobody has linked for nothing.
  pub tick-Mirrors :
      (client : ChainClient) (w : World)
      → IsSaved w.session
      → Mirrors w (tick watcher wallets client w) × IsSaved (tick watcher wallets client w).session
  unfolding tick
  tick-Mirrors client w saved =
      let run = scan-Scans client w.cursor w.events client.latest_block w.session in
      rw run.runs (finish-Mirrors w run.answer run.after saved run.keeps run.adds)
