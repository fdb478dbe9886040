-- ===== src/UsageBilling/Tests.antt =====
-- A developer with 1 USD reserves, is answered or refused, and the theorems at these runs.
use gridix_infra.UsageBilling.Requests.Backing.{Interleaving-IsBacked, answer_returns}
use gridix_infra.Models.Rows.{Uuid}
use gridix_infra.Config.{default_settings}
use gridix_infra.Ledger.{post_transaction, account_balance}
use gridix_infra.Prelude.{[], none, ◌≡◌, refl, arith, ◌∷◌}
use gridix_infra.Decimal.{round_half_up}
use gridix_infra.UsageBilling.Requests.{
  World, IsBacked, Hold, escrow_balance, admit, Interleaving, next, here,
}
use gridix_infra.Session.{saved, IsSaved, Session, ok, commit}
use gridix_infra.Prelude.Int.{pos, ◌+ℤ◌, ◌-ℤ◌, at_least_zero, ℤ, ◌≤ℤ◌, int_laws, min_ℤ}
use gridix_infra.UsageBilling.{
  quantize_usdc, charge_usage, credit_deposit, developer_balance, reserve_balance,
  settle_reservation,
}
use gridix_infra.UsageBilling.Effects.{charge_usage_pays, Charges}

abbrev empty_session : Session
empty_session = record { entries = []; committed = []; next_uuid = 0 }

-- Developer 7 after a deposit of 1 USD.
abbrev funded : Session
funded = saved (credit_deposit 7 (pos 100_000_000) "deposit" empty_session).1

abbrev no_requests : World
no_requests = record { session = funded; holds = [] }

funded_balance : developer_balance funded.entries 7 ≡ pos 100_000_000
unfolding credit_deposit quantize_usdc round_half_up post_transaction account_balance ◌+ℤ◌ ◌-ℤ◌
funded_balance = refl

charge_usage_pays_example :
    ((charge_usage 7 21 (pos 12_345_678) default_settings none "inference_usage" funded).0
      ≡ ok (at_least_zero (quantize_usdc (pos 12_345_678))))
    × Charges 7 21
        (pos 12_345_678)
        default_settings
        none
        "inference_usage"
        funded
        (at_least_zero (quantize_usdc (pos 12_345_678)))
        (charge_usage 7 21 (pos 12_345_678) default_settings none "inference_usage" funded).1
unfolding quantize_usdc round_half_up
charge_usage_pays_example =
    charge_usage_pays 7 21 (pos 12_345_678) default_settings none "inference_usage" funded
      (omega arith) (rw funded_balance (omega arith))

funded_nonneg : (d : Uuid) → pos 0 ≤ℤ developer_balance funded.entries d
unfolding credit_deposit quantize_usdc round_half_up post_transaction account_balance ◌+ℤ◌ ◌-ℤ◌
funded_nonneg d = ground arith

funded-IsSaved : IsSaved funded
funded-IsSaved = refl

abbrev all_in_escrow : Uuid → ℤ
all_in_escrow d = escrow_balance funded.entries d

start_IsBacked : IsBacked all_in_escrow no_requests
start_IsBacked = record {
  nonneg = funded_nonneg;
  backed = λ d. omega int_laws;
  priced = tt;
  durable = funded-IsSaved;
}

abbrev half : ℤ
half = pos 50_000_000

abbrev reserved : Session
reserved = (reserve_balance 7 half funded).1

abbrev open_request : Hold
open_request = record { dev = 7; worst_case = half; held = half }

abbrev one_request : World
one_request = record { session = reserved; holds = open_request ∷ [] }

reserve_runs : reserve_balance 7 half funded ≡ (ok half, reserved)
unfolding credit_deposit reserve_balance commit quantize_usdc round_half_up post_transaction
    account_balance ◌+ℤ◌ ◌-ℤ◌
reserve_runs = refl

admitted : Interleaving default_settings no_requests one_request
admitted = next here (admit 7 half half reserved reserve_runs refl)

one_request-IsBacked : IsBacked all_in_escrow one_request
one_request-IsBacked =
    Interleaving-IsBacked default_settings (omega arith) all_in_escrow start_IsBacked admitted

-- A node that claims a hundred times the worst case.
answer_returns_example :
    (cost : ℤ) × (t : Session) × (settle_reservation 7 21 half
        (min_ℤ (pos 5_000_000_000) half)
        default_settings
        reserved
      ≡ (ok cost, t))
    × (cost ≤ℤ half)
answer_returns_example =
    answer_returns default_settings (omega arith) all_in_escrow one_request [] [] open_request refl
      one_request-IsBacked 21 (pos 5_000_000_000)

Interleaving-IsBacked_example : IsBacked all_in_escrow one_request
Interleaving-IsBacked_example =
    Interleaving-IsBacked default_settings (omega arith) all_in_escrow start_IsBacked admitted
