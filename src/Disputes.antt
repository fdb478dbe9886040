-- ===== src/Disputes.antt =====
-- api/app/disputes.py: a slash is held in the `disputed` account until its dispute is resolved.
-- The commitment to the evidence (sha256 over canonical JSON) and the clock are parameters.
pub mod Effects
pub mod Lifecycle
pub mod Rulings
mod Tests
use gridix_infra.Prelude.{
  Bool, true, false, Option, none, some, String, [], ◌∷◌, if◌then◌else◌, ltb, not, ◌||◌, str_eq,
  ◌+◌,
}
use gridix_infra.Prelude.Int.{ℤ, pos, min_ℤ, ltb_ℤ, leb_ℤ}
use gridix_infra.Models.{DisputeState, LedgerAccount, debit, credit, dispute_state_eq}
use gridix_infra.Models.Rows.{Dispute, Evidence, Timestamp, Uuid}
use gridix_infra.Config.{Settings}
use gridix_infra.Session.{Action, pure, gets, ◌>>=◌, ◌>>◌}
use gridix_infra.Ledger.{posting, post_transaction, provider_stake}

-- The move of the held amount, where there is one.
unfoldable pub hold_stake : Uuid → ℤ → Option Uuid → Action (Unit {0})
hold_stake p held job_id = if leb_ℤ held (pos 0) then pure tt else do
  post_transaction
      (posting LedgerAccount.stake debit held (some p)
        ∷ posting LedgerAccount.disputed credit held (some p)
        ∷ [])
      "slash_hold" job_id none
  pure tt

unfoldable pub open_dispute :
    (Evidence → String)
    → Settings
    → Timestamp
    → Uuid
    → ℤ
    → String
    → Option Uuid
    → Option Evidence
    → Action Dispute
open_dispute evidence_commitment settings now p amount reason job_id evidence = do
  current ← gets (λ s. provider_stake s.entries p)
  let held = min_ℤ amount current
  hold_stake p held job_id
  pure (record {
    provider_id = p;
    job_id = job_id;
    amount = held;
    state = DisputeState.opened;
    reason = reason;
    evidence = evidence;
    evidence_hash = elim evidence [ none ↦ none | some e ↦ some (evidence_commitment e) ];
    ruling_reason = none;
    window_expires_at = some (now + settings.dispute_window_seconds);
    resolved_at = none;
  })

-- `_window_open`
abbrev pub window_open : Dispute → Timestamp → Bool
window_open d now = elim d.window_expires_at [ none ↦ false | some expires ↦ ltb now expires ]

unfoldable pub contest_dispute : Dispute → Timestamp → Bool × Dispute
contest_dispute d now =
    if not (dispute_state_eq d.state DisputeState.opened) || not (window_open d now)
    then (false, d)
    else (true, record d { state = DisputeState.under_review })

-- The state is `upheld` or `overturned`.
abbrev pub is_resolved : DisputeState → Bool
is_resolved state =
    dispute_state_eq state DisputeState.upheld || dispute_state_eq state DisputeState.overturned

abbrev pub ruled : Bool → DisputeState
ruled upheld = if upheld then DisputeState.upheld else DisputeState.overturned

-- The move of the held amount to where the ruling sends it.
unfoldable pub release_held : Dispute → Bool → Action (Unit {0})
release_held d upheld = if leb_ℤ d.amount (pos 0) then pure tt else do
  post_transaction
      (posting LedgerAccount.disputed debit d.amount (some d.provider_id)
        ∷ posting (if upheld then LedgerAccount.protocol else LedgerAccount.stake) credit d.amount
            (if upheld then none else some d.provider_id)
        ∷ [])
      (if upheld then "slash_confirmed" else "slash_reversed") d.job_id none
  pure tt

-- `ruling_reason or dispute.ruling_reason`
abbrev pub ruling_of : String → Option String → Option String
ruling_of ruling_reason old = if str_eq ruling_reason "" then old else some ruling_reason

unfoldable pub resolve_dispute : Dispute → Bool → String → Timestamp → Action Dispute
resolve_dispute d upheld ruling_reason now = if is_resolved d.state then pure d else do
  release_held d upheld
  pure (record d {
    state = ruled upheld;
    ruling_reason = ruling_of ruling_reason d.ruling_reason;
    resolved_at = some now;
  })
