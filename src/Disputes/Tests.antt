-- ===== src/Disputes/Tests.antt =====
-- Runs of the dispute lifecycle, and its theorems at them.
use gridix_infra.Prelude.{[], ◌∷◌, none, some, true, false, ◌≡◌, refl, arith, String, Option}
use gridix_infra.Prelude.Int.{ℤ, pos, min_ℤ, int_laws}
use gridix_infra.Models.{LedgerAccount}
use gridix_infra.Models.Rows.{Dispute, Evidence, Uuid}
use gridix_infra.Config.{default_settings}
use gridix_infra.Session.{Session, ok}
use gridix_infra.Ledger.{deposit_stake, provider_stake, account_balance, slash_stake}
use gridix_infra.Ledger.Stake.{deposit_stake-Moves}
use gridix_infra.Ledger.Posted.{balance-nil}
use gridix_infra.Disputes.{open_dispute, resolve_dispute, contest_dispute}
use gridix_infra.Disputes.Effects.{open_dispute-Moves, opened_dispute}
use gridix_infra.Disputes.Lifecycle.{Reach-IsHeld, Reach, opens, start, more, IsHeld, board}
use gridix_infra.Disputes.Rulings.{overturned_restores, upheld_slashes}

-- The commitment to the evidence.
abbrev no_commitment : Evidence → String
no_commitment e = "00"

abbrev fresh_session : Session
fresh_session = record { entries = []; committed = []; next_uuid = 0 }

-- Provider 21 has 30 USD at stake.
abbrev staked : Session
staked = (deposit_stake 21 (pos 3_000_000_000) fresh_session).1

-- A slash of 50 USD for a canary miss on job 1.
abbrev slash_of_50 : ℤ → Dispute
slash_of_50 held =
    opened_dispute no_commitment default_settings 5 21 (pos 5_000_000_000) "canary_fail" (some 1)
      none held

abbrev opened_session : Session
opened_session =
    (open_dispute no_commitment default_settings 5 21 (pos 5_000_000_000) "canary_fail" (some 1)
      none staked).1

abbrev slash_held : Dispute
slash_held = slash_of_50 (min_ℤ (pos 5_000_000_000) (provider_stake staked.entries 21))

opening :
    open_dispute no_commitment default_settings 5 21
      (pos 5_000_000_000)
      "canary_fail"
      (some 1)
      none
      staked
    ≡ (ok slash_held, opened_session)
opening = λ i. (
  (open_dispute-Moves no_commitment default_settings 5 21 (pos 5_000_000_000) "canary_fail" (some 1)
        none staked).0
      i,
  opened_session,
)

overturned_restores_example :
    account_balance
      (resolve_dispute slash_held false "mistake" 9 opened_session).1.entries
      LedgerAccount.stake
      (some 21)
    ≡ account_balance staked.entries LedgerAccount.stake (some 21)
overturned_restores_example =
    overturned_restores no_commitment default_settings 5 9 21 (pos 5_000_000_000) "canary_fail"
      "mistake" (some 1) none staked opened_session slash_held opening LedgerAccount.stake (some 21)

upheld_slashes_example :
    account_balance
      (resolve_dispute slash_held true "confirmed" 9 opened_session).1.entries
      LedgerAccount.protocol
      none
    ≡ account_balance
        (slash_stake 21 (pos 5_000_000_000) (some 1) staked).1.entries
        LedgerAccount.protocol
        none
upheld_slashes_example =
    upheld_slashes no_commitment default_settings 5 9 21 (pos 5_000_000_000) "canary_fail"
      "confirmed" (some 1) none staked opened_session slash_held opening LedgerAccount.protocol none

staked-undisputed :
    (q : Option Uuid) → account_balance staked.entries LedgerAccount.disputed q ≡ pos 0
staked-undisputed q =
    rw
      ((deposit_stake-Moves 21 (pos 3_000_000_000) fresh_session (omega arith)).1
        LedgerAccount.disputed q)
      (rw (balance-nil LedgerAccount.disputed q) (omega int_laws))

-- The dispute as it is opened, from a session whose disputed account is empty.
opened_board : Reach no_commitment default_settings (
    board opened_session
      (slash_of_50 (min_ℤ (pos 5_000_000_000) (provider_stake staked.entries 21)) ∷ []))
opened_board =
    let opening =
      open_dispute-Moves no_commitment default_settings 5 21 (pos 5_000_000_000) "canary_fail"
        (some 1) none staked in
    more (start staked staked-undisputed) (
      opens 5 21 (pos 5_000_000_000) "canary_fail" (some 1) none staked opened_session
        (slash_of_50 (min_ℤ (pos 5_000_000_000) (provider_stake staked.entries 21))) []
        (λ i. (opening.0 i, opened_session)))

Reach-IsHeld_example : IsHeld (
    board opened_session
      (slash_of_50 (min_ℤ (pos 5_000_000_000) (provider_stake staked.entries 21)) ∷ []))
Reach-IsHeld_example = Reach-IsHeld no_commitment default_settings opened_board

contest_in_time : (contest_dispute (slash_of_50 (pos 3_000_000_000)) 6).0 ≡ true
unfolding contest_dispute
contest_in_time = refl

contest_too_late : (contest_dispute (slash_of_50 (pos 3_000_000_000)) 86_400_000_005).0 ≡ false
unfolding contest_dispute
contest_too_late = refl
