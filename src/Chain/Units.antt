-- ===== src/Chain/Units.antt =====
-- api/app/chain/units.py: ledger amounts, in 0.00000001 USD, and raw units of a token. The decimal
-- products and quotients are exact for amounts of the ledger's columns and at most 8 decimals.
use gridix_infra.Prelude.{
  ℕ, zero, suc, ◌+◌, ◌-◌, ◌*◌, ◌/◌, ◌^◌, ◌≤◌, ◌<◌, ◌≡◌, Option, none, some, if◌then◌else◌, arith,
  ap, ◌∙◌, sym, refl, ge→ltb,
}
use gridix_infra.Prelude.Int.{ℤ, pos, pos_part, ltb_ℤ, ◌≤ℤ◌}
use mathlib.Core.Path.{subst}
use native.Mathlib.Nat.{
  mul-div_cancel, lt_of_mul-lt-mul_right, le_of_mul-le-mul_right, lt-div-mul-add, div-mul-le_self,
  one-le-pow, pow-suc,
}

-- `None` stands for the ValueError.
unfoldable pub to_units : ℤ → ℕ → Option ℕ
to_units amount decimals =
    if ltb_ℤ amount (pos 0) then none else some (pos_part amount * 10 ^ decimals / 10 ^ 8)

unfoldable pub from_units : ℕ → ℕ → ℤ
from_units units decimals = pos (units * 10 ^ 8 / 10 ^ decimals)

pow-add : (m e : ℕ) → 10 ^ m * 10 ^ e ≡ 10 ^ (m + e)
pow-add m zero = let same : m + 0 ≡ m = omega arith in rw same (omega arith)
pow-add m (suc e) =
    let next : m + suc e ≡ suc (m + e) = omega arith in
    rw (pow-suc 10 e, next, pow-suc 10 (m + e)) (omega (arith, pow-add m e))

module _ (k f : ℕ) where
  -- A quotient by k * f is taken back to a multiple of f.
  times_f : (m : ℕ) → 0 < k → m * (k * f) / k ≡ m * f
  times_f m p = ap (λ x. x / k) (omega arith) ∙ mul-div_cancel (m * f) p

  there_and_back : (u : ℕ) → 0 < k → 0 < k * f → u * (k * f) / k * k / (k * f) ≡ u
  there_and_back u p q = rw (times_f u p) (ap (λ x. x / (k * f)) (omega arith) ∙ mul-div_cancel u q)

  dust :
      (n : ℕ)
      → 0 < k
      → 0 < k * f
      → (n * k / (k * f) * (k * f) / k ≤ n) × (n < n * k / (k * f) * (k * f) / k + f)
  dust n p q =
      let m = n * k / (k * f) in
      rw (times_f m p) (
        le_of_mul-le-mul_right {m = m * f} {n = n} {k = k}
            (omega (arith, div-mul-le_self (n * k) (k * f))) p,
        lt_of_mul-lt-mul_right k {m = n} {n = m * f + f}
            (omega (arith, lt-div-mul-add {a = n * k} q)),
      )

to_units-pos : (n decimals : ℕ) → to_units (pos n) decimals ≡ some (n * 10 ^ decimals / 10 ^ 8)
unfolding to_units
to_units-pos n decimals = rw (ge→ltb (n + 0) 0 (omega arith)) refl

-- With a token of at most 8 decimals every number of raw units is an amount of the ledger, and
-- converting it back gives the same units. Of an amount that is not negative, the units are worth
-- at most the amount, and less than one raw unit is left over.
pub units_roundtrip :
    (decimals : ℕ)
    → decimals ≤ 8
    → ((units : ℕ) → to_units (from_units units decimals) decimals ≡ some units)
      × ((n : ℕ)
          → (units : ℕ) × (to_units (pos n) decimals ≡ some units)
            × (from_units units decimals ≤ℤ pos n)
            × (n < pos_part (from_units units decimals) + 10 ^ (8 - decimals)))
unfolding from_units
units_roundtrip decimals h =
    let k : ℕ = 10 ^ decimals in
    let f : ℕ = 10 ^ (8 - decimals) in
    let exponents : 8 ≡ decimals + (8 - decimals) = omega arith in
    let whole : 10 ^ 8 ≡ k * f =
      ap (λ x. 10 ^ x) exponents ∙ sym (pow-add decimals (8 - decimals)) in
    let some_k : 0 < k = one-le-pow decimals 10 (omega arith) in
    let some_whole : 0 < k * f = subst (λ x. 0 < x) whole (omega arith) in
    (
      λ u.
          to_units-pos (u * 10 ^ 8 / k) decimals
          ∙ subst (λ x. some (u * x / k * k / x) ≡ some u) (sym whole)
              (ap some (there_and_back k f u some_k some_whole)),
      λ n.
          let (below, left) = dust k f n some_k some_whole in
          (
            n * k / 10 ^ 8,
            to_units-pos n decimals,
            subst (λ x. n * k / x * x / k + 0 ≤ n + 0) (sym whole) (omega (arith, below)),
            subst (λ x. n < n * k / x * x / k + f) (sym whole) left,
          ),
    )
