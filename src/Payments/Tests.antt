-- ===== src/Payments/Tests.antt =====
-- Escrow at concrete amounts.
use gridix_infra.Ledger.{post_transaction}
use gridix_infra.Prelude.{◌≡◌, [], refl}
use gridix_infra.Session.{Session, err, unbalanced}
use gridix_infra.Prelude.Int.{pos, ◌-ℤ◌, max_ℤ, ◌+ℤ◌}
use gridix_infra.Payments.{hold_escrow, settle}

abbrev empty_session : Session
empty_session = record { entries = []; committed = []; next_uuid = 0 }

abbrev escrowed : Session
escrowed = (hold_escrow 1 7 (pos 1000) empty_session).1

-- A fee above the cost is refused and writes nothing.
dear_fee :
    settle 1 7 21 (pos 800) (pos 900) escrowed
    ≡ (err (unbalanced (pos 800) (max_ℤ (pos 800 -ℤ pos 900) (pos 900))), escrowed)
unfolding settle hold_escrow post_transaction max_ℤ ◌-ℤ◌ ◌+ℤ◌
dear_fee = refl
