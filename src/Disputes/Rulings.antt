-- ===== src/Disputes/Rulings.antt =====
-- What a slash dispute comes to, from opening to ruling.
use gridix_infra.Ledger.Balances.{Moves}
use mathlib.Core.Path.{subst}
use gridix_infra.Prelude.{Option, String, true, false, ◌≡◌, refl, ap, sym, Bool, ◌∙◌, some}
use gridix_infra.Prelude.Int.{ℤ, int_laws, min_ℤ, at_least_zero}
use gridix_infra.Models.{LedgerAccount}
use gridix_infra.Models.Rows.{Dispute, Evidence, Timestamp, Uuid}
use gridix_infra.Config.{Settings}
use gridix_infra.Session.{Session, Result, ok, err}
use gridix_infra.Ledger.{account_balance, provider_stake, slash_stake}
use gridix_infra.Ledger.Stake.{slash_stake-Moves}
use gridix_infra.Disputes.{open_dispute, resolve_dispute}
use gridix_infra.Disputes.Effects.{
  open_dispute-Moves, resolve_dispute-Moves, opened_dispute, sink, sink_ref,
}

result_of : Dispute → Result Dispute → Dispute
result_of d (ok e) = e
result_of d (err e) = d

result_eq : {d e : Dispute} → ok d ≡ ok e → d ≡ e
unfolding result_of
result_eq {d} same = ap (result_of d) same

module _ (commitment : Evidence → String) (settings : Settings) (opened_at now : Timestamp)
    (p : Uuid) (amount : ℤ) (reason ruling : String) (job_id : Option Uuid)
    (evidence : Option Evidence) (s during : Session) (d : Dispute)
    (opened : open_dispute commitment settings opened_at p amount reason job_id evidence s
      ≡ (ok d, during))
    (c : LedgerAccount) (q : Option Uuid) where
  abbrev held : ℤ
  held = min_ℤ amount (provider_stake s.entries p)

  abbrev expected : Dispute
  expected = opened_dispute commitment settings opened_at p amount reason job_id evidence held

  -- What opening returns is the dispute over the amount that was held.
  returned : d ≡ expected
  returned = result_eq (
      sym (ap (λ r. r.0) opened)
      ∙ (open_dispute-Moves commitment settings opened_at p amount reason job_id evidence s).0)

  opening :
      Moves LedgerAccount.stake
        (some p)
        LedgerAccount.disputed
        (some p)
        (at_least_zero held)
        s
        during
  opening =
      subst
        (λ t.
          Moves LedgerAccount.stake (some p) LedgerAccount.disputed (some p) (at_least_zero held) s
            t)
        (ap (λ r. r.1) opened)
        (open_dispute-Moves commitment settings opened_at p amount reason job_id evidence s).1

  ruled_balance :
      (upheld : Bool)
      → Moves LedgerAccount.disputed
          (some p)
          (sink upheld)
          (sink_ref upheld p)
          (at_least_zero held)
          during
          (resolve_dispute d upheld ruling now during).1
  ruled_balance upheld =
      subst
        (λ e.
          Moves LedgerAccount.disputed (some p) (sink upheld) (sink_ref upheld p)
            (at_least_zero held) during (resolve_dispute e upheld ruling now during).1)
        (sym returned) (resolve_dispute-Moves expected upheld ruling now during refl).1

  -- Where opening a dispute returned one, overturning just that dispute leaves every balance as it
  -- was before it was opened.
  pub overturned_restores :
      account_balance (resolve_dispute d false ruling now during).1.entries c q
      ≡ account_balance s.entries c q
  overturned_restores = rw (ruled_balance false c q, opening c q) (omega int_laws)

  -- Where opening a dispute returned one, upholding just that dispute leaves every balance as
  -- `slash_stake` of the same amount does.
  pub upheld_slashes :
      account_balance (resolve_dispute d true ruling now during).1.entries c q
      ≡ account_balance (slash_stake p amount job_id s).1.entries c q
  upheld_slashes =
      rw (ruled_balance true c q, opening c q, (slash_stake-Moves p amount job_id s).1 c q)
        (omega int_laws)
