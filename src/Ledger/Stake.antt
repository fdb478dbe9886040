-- ===== src/Ledger/Stake.antt =====
-- Stake deposits and slashes: what they return and what they do to every balance.
use gridix_infra.Prelude.{Option, none, some, ◌≡◌, refl, arith, ==_refl}
use gridix_infra.Prelude.Int.{
  ℤ, pos, ◌+ℤ◌, ◌-ℤ◌, ◌≤ℤ◌, min_ℤ, max_ℤ, at_least_zero, at_least_zero_nonpos, at_least_zero_pos,
}
use gridix_infra.Models.{LedgerAccount}
use gridix_infra.Models.Rows.{Uuid}
use gridix_infra.Session.{Session, ok}
use gridix_infra.Ledger.{provider_stake, deposit_stake, slash_stake}
use gridix_infra.Ledger.Balances.{
  post-legs, balance-transferred, Moves, moved, Moves-moved, post-legs_pos,
}

-- A deposit of an amount that is not negative raises the provider's stake by it, at the expense of
-- the protocol account, and changes no other balance.
pub deposit_stake-Moves :
    (p : Uuid) (amount : ℤ) (s : Session)
    → pos 0 ≤ℤ amount
    → ((deposit_stake p amount s).0 ≡ ok s.next_uuid)
      × Moves LedgerAccount.protocol none LedgerAccount.stake
          (some p)
          amount
          s
          (deposit_stake p amount s).1
unfolding deposit_stake
deposit_stake-Moves p amount s h =
    rw (post-legs _ _ _ _ amount _ _ _ s h) (refl, balance-transferred _ _ _ _ amount _ _ _ s)

-- What a slash takes: the amount, at most the stake, and never less than nothing.
abbrev pub slashed : ℤ → ℤ → ℤ
slashed amount stake = at_least_zero (min_ℤ amount stake)

nonneg_after : (amount stake : ℤ) → pos 0 ≤ℤ stake → pos 0 ≤ℤ stake -ℤ slashed amount stake +ℤ pos 0
unfolding max_ℤ min_ℤ ◌-ℤ◌ ◌+ℤ◌
nonneg_after amount stake h = ground arith

slash_stake_lem :
    (p : Uuid) (amount : ℤ) (job_id : Option Uuid) (s : Session)
    → let x = min_ℤ amount (provider_stake s.entries p) in
      slash_stake p amount job_id s ≡ (
        ok (at_least_zero x),
        moved LedgerAccount.stake (some p) LedgerAccount.protocol none x "slash" job_id none s,
      )
unfolding slash_stake
slash_stake_lem p amount job_id s =
    let x = min_ℤ amount (provider_stake s.entries p) in
    ground (
      arith,
      at_least_zero_nonpos x,
      at_least_zero_pos x,
      post-legs_pos LedgerAccount.stake (some p) LedgerAccount.protocol none x "slash" job_id none
          s,
    )

-- A slash never raises. It returns the lesser of the amount and the stake, or 0 where that is
-- negative, and moves just that from the provider's stake to the protocol, changing no other
-- balance.
pub slash_stake-Moves :
    (p : Uuid) (amount : ℤ) (job_id : Option Uuid) (s : Session)
    → ((slash_stake p amount job_id s).0 ≡ ok (slashed amount (provider_stake s.entries p)))
      × Moves LedgerAccount.stake
          (some p)
          LedgerAccount.protocol
          none
          (slashed amount (provider_stake s.entries p))
          s
          (slash_stake p amount job_id s).1
slash_stake-Moves p amount job_id s = rw (slash_stake_lem p amount job_id s) (
  refl,
  Moves-moved LedgerAccount.stake (some p) LedgerAccount.protocol none
      (min_ℤ amount (provider_stake s.entries p)) "slash" job_id none s,
)

-- A slash never takes a stake that is not negative below zero.
pub slash_stake_nonneg :
    (p : Uuid) (amount : ℤ) (job_id : Option Uuid) (s : Session)
    → pos 0 ≤ℤ provider_stake s.entries p
    → pos 0 ≤ℤ provider_stake (slash_stake p amount job_id s).1.entries p
slash_stake_nonneg p amount job_id s h =
    rw ((slash_stake-Moves p amount job_id s).1 LedgerAccount.stake (some p))
      (rw (==_refl p) (nonneg_after amount (provider_stake s.entries p) h))
