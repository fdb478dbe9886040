-- ===== src/Chain/Watcher/Mirror.antt =====
-- What the processed events of the table stand for, and the steps of a scan that keep the ledger
-- their mirror.
use gridix_infra.Prelude.Sort.{All-sort_by}
use gridix_infra.Chain.Units.{from_units}
use gridix_infra.Models.{LedgerAccount}
use gridix_infra.Session.{Session, Action, pure, ◌>>◌, ◌>>=◌}
use gridix_infra.Models.Rows.{Uuid}
use gridix_infra.Chain.Watcher.{
  ChainWatcher, Wallet, apply_effect, undo, handle_reorg, confirm, confirm_all, apply_confirmed,
  developer_for, reverse_effect, deposit_post, apply_for, is_orphan, reverse_post, reverse_for,
}
use gridix_infra.Chain.Events.{
  EventName, ChainLog, ChainEvent, ChainClient, is_effectful, order_events, precedes, new_rows,
  is_seen,
}
use gridix_infra.Prelude.Int.{ℤ, ◌-ℤ◌, pos, int_laws, ◌+ℤ◌, zero-+ℤ, +ℤ_assoc}
use gridix_infra.Chain.Watcher.Runs.{
  Runs, Runs-pure, Runs-bind, Runs-legs, Runs-legs_back, Balances, moves_gain,
}
use gridix_infra.Prelude.{
  [], ◌∷◌, true, false, none, some, inl, inr, ◌≡◌, List, Bool, ℕ, Option, if◌then◌else◌, not, arith,
  All, Bool-cases, ◌++◌, filter, refl, ltb, sym, ap, All-filter, ◌∙◌, ◌+◌, map,
}

sub_self : (x : ℤ) → x -ℤ x ≡ pos 0
sub_self x = omega int_laws

module _ (watcher : ChainWatcher) (wallets : List Wallet) where
  abbrev pub name_value : EventName → ℕ → Uuid → Balances
  name_value EventName.deposited units dev =
      moves_gain LedgerAccount.protocol none LedgerAccount.developer (some dev)
        (from_units units watcher.usdc_decimals)
  name_value EventName.withdrawn units dev =
      moves_gain LedgerAccount.developer (some dev) LedgerAccount.protocol none
        (from_units units watcher.usdc_decimals)
  name_value _ units dev = λ c q. pos 0

  abbrev pub owner_value : ChainLog → Option Uuid → Balances
  owner_value log none c q = pos 0
  owner_value log (some dev) c q = name_value log.event_name log.amount dev c q

  -- What an event stands for in a balance: a deposit of a linked wallet is the developer's and not
  -- the protocol's, a withdrawal the other way round.
  abbrev pub value_of : ChainLog → Balances
  value_of log c q = owner_value log (developer_for wallets log.developer) c q

  abbrev pub event_value : ChainEvent → Balances
  event_value ev c q = if ev.processed then value_of ev.log c q else pos 0

  -- What the processed events of the table stand for.
  abbrev pub mirrored : List ChainEvent → Balances
  mirrored [] c q = pos 0
  mirrored (ev ∷ evs) c q = event_value ev c q +ℤ mirrored evs c q

  deposit_post-Runs :
      (name : EventName) (log : ChainLog) (dev : Uuid) (s : Session)
      → Runs
          (deposit_post name log watcher.usdc_decimals dev)
          s
          (λ _. name_value name log.amount dev)
  deposit_post-Runs EventName.deposited log dev s = Runs-legs _ _ _ _ log.amount _ _ _ s
  deposit_post-Runs EventName.withdrawn log dev s = Runs-legs _ _ _ _ log.amount _ _ _ s
  deposit_post-Runs EventName.debited log dev s = Runs-pure tt s _ (λ c q. refl)
  deposit_post-Runs EventName.settled log dev s = Runs-pure tt s _ (λ c q. refl)
  deposit_post-Runs EventName.slashed log dev s = Runs-pure tt s _ (λ c q. refl)

  apply_for-Runs :
      (log : ChainLog) (owner : Option Uuid) (s : Session)
      → Runs (apply_for watcher log owner) s (λ _. owner_value log owner)
  apply_for-Runs log none s = Runs-pure tt s _ (λ c q. refl)
  apply_for-Runs log (some dev) s = deposit_post-Runs log.event_name log dev s

  pub apply_effect-Runs :
      (log : ChainLog) (s : Session) → Runs (apply_effect watcher wallets log) s (λ _. value_of log)
  unfolding apply_effect
  apply_effect-Runs log s = apply_for-Runs log (developer_for wallets log.developer) s

  reverse_post-Runs :
      (name : EventName) (log : ChainLog) (dev : Uuid) (s : Session)
      → is_effectful name ≡ true
      → Runs
          (reverse_post name log watcher.usdc_decimals dev)
          s
          (λ _ c q. pos 0 -ℤ name_value name log.amount dev c q)
  reverse_post-Runs EventName.deposited log dev s e =
      Runs-legs_back LedgerAccount.protocol none LedgerAccount.developer (some dev) log.amount
        watcher.usdc_decimals "reorg_reverse_deposited" (some log.tx_hash) s
  reverse_post-Runs EventName.withdrawn log dev s e =
      Runs-legs_back LedgerAccount.developer (some dev) LedgerAccount.protocol none log.amount
        watcher.usdc_decimals "reorg_reverse_withdrawn" (some log.tx_hash) s
  reverse_post-Runs EventName.debited log dev s e = absurd (ground arith)
  reverse_post-Runs EventName.settled log dev s e = absurd (ground arith)
  reverse_post-Runs EventName.slashed log dev s e = absurd (ground arith)

  reverse_for-Runs :
      (log : ChainLog) (owner : Option Uuid) (s : Session)
      → is_effectful log.event_name ≡ true
      → Runs (reverse_for watcher log owner) s (λ _ c q. pos 0 -ℤ owner_value log owner c q)
  reverse_for-Runs log none s e = Runs-pure tt s _ (λ c q. omega int_laws)
  reverse_for-Runs log (some dev) s e = reverse_post-Runs log.event_name log dev s e

  ineffectual :
      (name : EventName) (units : ℕ) (dev : Uuid) (c : LedgerAccount) (q : Option Uuid)
      → is_effectful name ≡ false
      → name_value name units dev c q ≡ pos 0
  ineffectual EventName.deposited units dev c q e = ground arith
  ineffectual EventName.withdrawn units dev c q e = ground arith
  ineffectual EventName.debited units dev c q e = refl
  ineffectual EventName.settled units dev c q e = refl
  ineffectual EventName.slashed units dev c q e = refl

  ineffectual-owner :
      (log : ChainLog) (owner : Option Uuid) (c : LedgerAccount) (q : Option Uuid)
      → is_effectful log.event_name ≡ false
      → owner_value log owner c q ≡ pos 0
  ineffectual-owner log none c q e = refl
  ineffectual-owner log (some dev) c q e = ineffectual log.event_name log.amount dev c q e

  pub undo-Runs :
      (ev : ChainEvent) (s : Session)
      → Runs (undo watcher wallets ev) s (λ _ c q. pos 0 -ℤ event_value ev c q)
  unfolding undo reverse_effect
  undo-Runs ev s = elim (Bool-cases ev.processed) [
    | inl p ↦ elim (Bool-cases (is_effectful ev.log.event_name)) [
      | inl e ↦ rw (p, e) (reverse_for-Runs ev.log (developer_for wallets ev.log.developer) s e)
      | inr e ↦
          rw (p, e)
            (Runs-pure tt s _ (λ c q.
              rw (ineffectual-owner ev.log (developer_for wallets ev.log.developer) c q e)
                (omega int_laws)))
    ]
    | inr p ↦ rw p (Runs-pure tt s _ (λ c q. omega int_laws))
  ]

  reorg_step-Runs :
      (orphan : Bool) (ev : ChainEvent) (evs : List ChainEvent) (rest : Action (List ChainEvent))
      (s : Session)
      → ((t : Session) → Runs rest t (λ kept c q. mirrored kept c q -ℤ mirrored evs c q))
      → Runs
          ((if orphan then undo watcher wallets ev else pure tt)
            >> (rest >>= λ kept. pure (if orphan then kept else ev ∷ kept)))
          s
          (λ kept c q. mirrored kept c q -ℤ mirrored (ev ∷ evs) c q)
  reorg_step-Runs true ev evs rest s h =
      Runs-bind _ _ s _ _ (undo-Runs ev s)
        (λ _ t. Runs-bind _ _ t _ _ (h t) (λ kept u. Runs-pure kept u _ (λ c q. omega int_laws)))
  reorg_step-Runs false ev evs rest s h =
      Runs-bind _ _ s (λ _ c q. pos 0) _ (Runs-pure tt s _ (λ c q. refl))
        (λ _ t.
          Runs-bind _ _ t _ _ (h t) (λ kept u. Runs-pure (ev ∷ kept) u _ (λ c q. omega int_laws)))

  pub handle_reorg-Runs :
      (client : ChainClient) (window_start latest : ℕ) (evs : List ChainEvent) (s : Session)
      → Runs
          (handle_reorg watcher wallets client window_start latest evs)
          s
          (λ kept c q. mirrored kept c q -ℤ mirrored evs c q)
  unfolding handle_reorg
  handle_reorg-Runs client window_start latest [] s = Runs-pure [] s _ (λ c q. omega int_laws)
  handle_reorg-Runs client window_start latest (ev ∷ evs) s =
      reorg_step-Runs (is_orphan client window_start latest ev) ev evs _ s
        (handle_reorg-Runs client window_start latest evs)

  confirm-Runs :
      (latest : ℕ) (ev : ChainEvent) (s : Session)
      → ev.processed ≡ false
      → Runs (confirm watcher wallets latest ev) s event_value
  unfolding confirm
  confirm-Runs latest ev s new =
      elim (Bool-cases (ltb (latest + 1) (watcher.confirmations + ev.log.block_number))) [
        | inl shallow ↦ rw shallow (Runs-pure ev s _ (λ c q. rw new refl))
        | inr deep ↦ elim (Bool-cases (is_effectful ev.log.event_name)) [
          | inl e ↦
              rw (deep, e)
                (Runs-bind _ _ s _ _ (apply_effect-Runs ev.log s) (λ _ t.
                  Runs-pure (record ev { confirmed = true; processed = true }) t _
                    (λ c q. sub_self (value_of ev.log c q))))
          | inr e ↦
              rw (deep, e)
                (Runs-pure _ s _
                  (λ c q. ineffectual-owner ev.log (developer_for wallets ev.log.developer) c q e))
        ]
      ]

  IsNew : ChainEvent → Type 0
  IsNew ev = not ev.processed ≡ true

  IsNew-unprocessed : (ev : ChainEvent) → IsNew ev → ev.processed ≡ false
  unfolding IsNew
  IsNew-unprocessed ev h = ground arith

  confirm_all-Runs :
      (latest : ℕ) (evs : List ChainEvent) (s : Session)
      → All IsNew evs
      → Runs (confirm_all watcher wallets latest evs) s mirrored
  unfolding confirm_all
  confirm_all-Runs latest [] s h = Runs-pure [] s _ (λ c q. refl)
  confirm_all-Runs latest (ev ∷ evs) s (h, hs) =
      Runs-bind _ _ s _ _ (confirm-Runs latest ev s (IsNew-unprocessed ev h)) (λ done t.
        Runs-bind _ _ t _ _ (confirm_all-Runs latest evs t hs)
          (λ rest u. Runs-pure (done ∷ rest) u _ (λ c q. omega int_laws)))

  mirrored-append :
      (xs ys : List ChainEvent) (c : LedgerAccount) (q : Option Uuid)
      → mirrored (xs ++ ys) c q ≡ mirrored xs c q +ℤ mirrored ys c q
  mirrored-append [] ys c q = sym (zero-+ℤ _)
  mirrored-append (x ∷ xs) ys c q = rw (mirrored-append xs ys c q) (sym (+ℤ_assoc _ _ _))

  mirrored-filter :
      (evs : List ChainEvent) (c : LedgerAccount) (q : Option Uuid)
      → mirrored (filter (λ e. e.processed) evs) c q ≡ mirrored evs c q
  mirrored-filter [] c q = refl
  mirrored-filter (ev ∷ evs) c q = elim (Bool-cases ev.processed) [
    | inl p ↦ rw p (ap (λ x. value_of ev.log c q +ℤ x) (mirrored-filter evs c q))
    | inr p ↦ rw p (mirrored-filter evs c q ∙ sym (zero-+ℤ _))
  ]

  pub apply_confirmed-Runs :
      (latest : ℕ) (evs : List ChainEvent) (s : Session)
      → Runs
          (apply_confirmed watcher wallets latest evs)
          s
          (λ done c q. mirrored done c q -ℤ mirrored evs c q)
  unfolding apply_confirmed IsNew
  apply_confirmed-Runs latest evs s =
      let new = filter (λ e. not e.processed) evs in
      let old = filter (λ e. e.processed) evs in
      Runs-bind _ _ s mirrored _
        (confirm_all-Runs latest (order_events new) s
          (All-sort_by precedes IsNew new (All-filter (λ e. not e.processed) evs)))
        (λ scanned t.
          Runs-pure (old ++ scanned) t _
            (λ c q. rw (mirrored-append old scanned c q, mirrored-filter evs c q) (omega int_laws)))

  mirrored-fresh :
      (logs : List ChainLog) (c : LedgerAccount) (q : Option Uuid)
      → mirrored (map (λ log. record { log = log; confirmed = false; processed = false }) logs) c q
        ≡ pos 0
  mirrored-fresh [] c q = refl
  mirrored-fresh (log ∷ logs) c q = rw (mirrored-fresh logs c q) (omega int_laws)

  pub mirrored-ingest :
      (rows : List ChainEvent) (logs : List ChainLog) (evs : List ChainEvent) (c : LedgerAccount)
      (q : Option Uuid)
      → mirrored (evs ++ new_rows rows logs) c q ≡ mirrored evs c q
  mirrored-ingest rows logs evs c q =
      rw
        (
          mirrored-append evs (new_rows rows logs) c q,
          mirrored-fresh (filter (λ log. not (is_seen rows log)) logs) c q,
        )
        (omega int_laws)
