-- ===== src/Decimal.antt =====
-- Python's `Decimal` as the money code uses it: half-up rounding, and the 28 significant digits of
-- the default context.
use gridix_infra.Prelude.{
  ℕ, zero, suc, ◌+◌, ◌*◌, ◌/◌, ◌%◌, ◌^◌, ◌≤◌, ◌<◌, ◌≡◌, ltb, ◌==◌, ◌&&◌, ◌||◌, if◌then◌else◌, arith,
  Bool-cases, inr, inl, ltb→ge,
}
use mathlib.Core.Path.{subst}
use native.Mathlib.Nat.{
  div-lt_iff_lt-mul, le-div_iff_mul-le, le_trans, div-mul-le_self, div-eq_of_lt, mul-le-mul_left,
  pow-le-pow_right,
}

-- n / d to a whole number, halves away from zero.
unfoldable pub round_half_up : ℕ → ℕ → ℕ
round_half_up n d = (2 * n + d) / (2 * d)

-- n / d to a whole number, halves to the even neighbour.
unfoldable pub round_half_even : ℕ → ℕ → ℕ
round_half_even n d =
    let q = n / d in
    let r = n % d in if ltb d (2 * r) || ((2 * r == d) && (q % 2 == 1)) then q + 1 else q

-- The number of decimals at which n / d has 28 significant digits: `e`, and more while they fit.
unfoldable pub decimals : ℕ → ℕ → ℕ → ℕ → ℕ
decimals zero n d e = e
decimals (suc fuel) n d e =
    let more = decimals fuel n d (e + 1) in if ltb (n * 10 ^ (e + 1)) (d * 10 ^ 28) then more else e

-- n / d rounded to the context's precision: a coefficient and the decimals that it is scaled by.
-- 60 rounds reach a quotient of 10 ^ -32.
unfoldable pub round_context : ℕ → ℕ → ℕ × ℕ
unfolding decimals round_half_even
round_context n d = let e = decimals 60 n d 0 in (round_half_even (n * 10 ^ e) d, e)

-- A share that is at most a whole number of units does not round above it.
pub round_half_up-le : (n d k : ℕ) → 0 < d → n ≤ k * d → round_half_up n d ≤ k
unfolding round_half_up
round_half_up-le n d k h le =
    let below : (2 * n + d) / (2 * d) < k + 1 = (div-lt_iff_lt-mul (omega arith)).1 (omega arith) in
    omega arith

-- Rounding is monotone.
pub round_half_up_mono : (m n d : ℕ) → 0 < d → m ≤ n → round_half_up m d ≤ round_half_up n d
unfolding round_half_up
round_half_up_mono m n d h le =
    (le-div_iff_mul-le {k = 2 * d} (omega arith)).1
      (le_trans (div-mul-le_self (2 * m + d) (2 * d)) (omega arith))

pub round_half_up-zero : (d : ℕ) → 0 < d → round_half_up 0 d ≡ 0
unfolding round_half_up
round_half_up-zero d h = div-eq_of_lt (omega arith)

-- With fuel for the digits that are missing, the search stops because one more decimal would take
-- the quotient beyond 28 digits, not because the fuel is spent.
pub decimals_enough :
    (fuel n d e : ℕ)
    → d * 10 ^ 28 ≤ n * 10 ^ (e + fuel)
    → d * 10 ^ 28 ≤ n * 10 ^ (decimals fuel n d e + 1)
unfolding decimals
decimals_enough zero n d e h =
    le_trans h (mul-le-mul_left n (pow-le-pow_right {n = 10} (omega arith) (omega arith)))
decimals_enough (suc fuel) n d e h = elim (Bool-cases (ltb (n * 10 ^ (e + 1)) (d * 10 ^ 28))) [
  | inl more ↦
      rw more
        (decimals_enough fuel n d (e + 1) (subst (λ k. d * 10 ^ 28 ≤ n * 10 ^ k) (omega arith) h))
  | inr done ↦ rw done (ltb→ge _ _ done)
]

-- So 60 rounds are enough for every quotient of at least 10 ^ -32.
pub round_context_enough :
    (n d : ℕ) → d ≤ n * 10 ^ 32 → d * 10 ^ 28 ≤ n * 10 ^ (decimals 60 n d 0 + 1)
round_context_enough n d h = decimals_enough 60 n d 0 (omega (arith, h))
