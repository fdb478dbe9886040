-- ===== src/Disputes/Effects.antt =====
-- What opening and resolving a dispute do to every balance.
use gridix_infra.Prelude.{
  Bool, Option, String, none, some, ◌≡◌, refl, true, false, if◌then◌else◌, ◌+◌, arith,
}
use gridix_infra.Prelude.Int.{ℤ, min_ℤ, at_least_zero}
use gridix_infra.Models.{LedgerAccount, DisputeState}
use gridix_infra.Models.Rows.{Dispute, Evidence, Timestamp, Uuid}
use gridix_infra.Config.{Settings}
use gridix_infra.Session.{Session, ok, bind_ok, pure}
use gridix_infra.Ledger.{provider_stake}
use gridix_infra.Ledger.Balances.{Moves, moved, Moves-moved, post-legs_pos}
use gridix_infra.Disputes.{
  hold_stake, open_dispute, release_held, resolve_dispute, is_resolved, ruled, ruling_of,
}

hold_stake_lem :
    (p : Uuid) (held : ℤ) (job_id : Option Uuid) (s : Session)
    → hold_stake p held job_id s ≡ (
      ok tt,
      moved LedgerAccount.stake
          (some p)
          LedgerAccount.disputed
          (some p)
          held
          "slash_hold"
          job_id
          none
          s,
    )
unfolding hold_stake
hold_stake_lem p held job_id s = ground (
  arith,
  post-legs_pos LedgerAccount.stake (some p) LedgerAccount.disputed (some p) held "slash_hold"
      job_id none s,
)

-- Where a ruling sends the held amount.
abbrev pub sink : Bool → LedgerAccount
sink upheld = if upheld then LedgerAccount.protocol else LedgerAccount.stake

abbrev pub sink_ref : Bool → Uuid → Option Uuid
sink_ref upheld p = if upheld then none else some p

abbrev ruling_entry : Bool → String
ruling_entry upheld = if upheld then "slash_confirmed" else "slash_reversed"

release_held_lem :
    (d : Dispute) (upheld : Bool) (s : Session)
    → release_held d upheld s ≡ (
      ok tt,
      moved LedgerAccount.disputed
          (some d.provider_id)
          (sink upheld)
          (sink_ref upheld d.provider_id)
          d.amount
          (ruling_entry upheld)
          d.job_id
          none
          s,
    )
unfolding release_held
release_held_lem d upheld s = ground (
  arith,
  post-legs_pos LedgerAccount.disputed (some d.provider_id) (sink upheld)
      (sink_ref upheld d.provider_id) d.amount (ruling_entry upheld) d.job_id none s,
)

module _ (commitment : Evidence → String) (settings : Settings) (now : Timestamp) (p : Uuid)
    (amount : ℤ) (reason : String) (job_id : Option Uuid) (evidence : Option Evidence) where
  -- The dispute that is opened for a held amount.
  abbrev pub opened_dispute : ℤ → Dispute
  opened_dispute held = record {
    provider_id = p;
    job_id = job_id;
    amount = held;
    state = DisputeState.opened;
    reason = reason;
    evidence = evidence;
    evidence_hash = elim evidence [ none ↦ none | some e ↦ some (commitment e) ];
    ruling_reason = none;
    window_expires_at = some (now + settings.dispute_window_seconds);
    resolved_at = none;
  }

  open_dispute_lem :
      (s : Session)
      → let held = min_ℤ amount (provider_stake s.entries p) in
        open_dispute commitment settings now p amount reason job_id evidence s ≡ (
          ok (opened_dispute held),
          moved LedgerAccount.stake
              (some p)
              LedgerAccount.disputed
              (some p)
              held
              "slash_hold"
              job_id
              none
              s,
        )
  unfolding open_dispute
  open_dispute_lem s =
      let held = min_ℤ amount (provider_stake s.entries p) in
      bind_ok (hold_stake p held job_id) (λ _. pure (opened_dispute held)) tt s _
        (hold_stake_lem p held job_id s)

  -- Opening a dispute never raises. It holds the lesser of the amount and the provider's stake, or
  -- nothing where that is negative: just that moves from the stake to the provider's disputed
  -- account, and no other balance changes.
  pub open_dispute-Moves :
      (s : Session)
      → let held = min_ℤ amount (provider_stake s.entries p) in
        ((open_dispute commitment settings now p amount reason job_id evidence s).0
          ≡ ok (opened_dispute held))
        × Moves LedgerAccount.stake
            (some p)
            LedgerAccount.disputed
            (some p)
            (at_least_zero held)
            s
            (open_dispute commitment settings now p amount reason job_id evidence s).1
  open_dispute-Moves s =
      let held = min_ℤ amount (provider_stake s.entries p) in
      rw (open_dispute_lem s) (
        refl,
        Moves-moved LedgerAccount.stake (some p) LedgerAccount.disputed (some p) held "slash_hold"
            job_id none s,
      )

module _ (d : Dispute) (upheld : Bool) (ruling : String) (now : Timestamp) (s : Session) where
  -- The dispute as the ruling leaves it.
  abbrev pub resolved_dispute : Dispute
  resolved_dispute = record d {
    state = ruled upheld;
    ruling_reason = ruling_of ruling d.ruling_reason;
    resolved_at = some now;
  }

  resolve_dispute_lem :
      is_resolved d.state ≡ false
      → resolve_dispute d upheld ruling now s ≡ (
        ok resolved_dispute,
        moved LedgerAccount.disputed
            (some d.provider_id)
            (sink upheld)
            (sink_ref upheld d.provider_id)
            d.amount
            (ruling_entry upheld)
            d.job_id
            none
            s,
      )
  unfolding resolve_dispute
  resolve_dispute_lem pending = rw pending (
      bind_ok (release_held d upheld) (λ _. pure resolved_dispute) tt s _
        (release_held_lem d upheld s))

  -- Resolving a dispute that is not resolved never raises. It moves just the held amount out of
  -- the provider's disputed account, to the protocol where the slash is upheld and back to the
  -- provider's stake where it is overturned, and no other balance changes.
  pub resolve_dispute-Moves :
      is_resolved d.state ≡ false
      → ((resolve_dispute d upheld ruling now s).0 ≡ ok resolved_dispute)
        × Moves LedgerAccount.disputed
            (some d.provider_id)
            (sink upheld)
            (sink_ref upheld d.provider_id)
            (at_least_zero d.amount)
            s
            (resolve_dispute d upheld ruling now s).1
  resolve_dispute-Moves pending = rw (resolve_dispute_lem pending) (
    refl,
    Moves-moved LedgerAccount.disputed (some d.provider_id) (sink upheld)
        (sink_ref upheld d.provider_id) d.amount (ruling_entry upheld) d.job_id none s,
  )

  pub resolve_dispute_twice :
      is_resolved d.state ≡ true → resolve_dispute d upheld ruling now s ≡ (ok d, s)
  unfolding resolve_dispute
  resolve_dispute_twice done = rw done refl
