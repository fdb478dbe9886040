-- ===== src/Penalties/Bounds.antt =====
-- A slash doubles with each upheld dispute, up to the cap.
use native.Mathlib.Nat.{pow-suc, mul-le-mul_right}
use gridix_infra.Prelude.{
  ℕ, ◌*◌, ◌≤◌, ◌≡◌, arith, ◌+◌, if◌then◌else◌, ltb, ap, ◌^◌, Bool-cases, ◌∙◌, inr, inl, ltb→lt,
  ltb→ge, suc,
}
use gridix_infra.Prelude.Int.{pos, scale, min_ℤ, ◌+ℤ◌}
use gridix_infra.Penalties.{multiplier, graduated_slash}

multiplier-suc :
    (n : ℕ) → multiplier (n + 1) ≡ (if ltb 8 (2 * multiplier n) then 8 else 2 * multiplier n)
multiplier-suc n =
    let power : 2 ^ (n + 1) ≡ 2 * 2 ^ n =
      let step : n + 1 ≡ suc n = omega arith in ap (λ k. 2 ^ k) step ∙ pow-suc 2 n ∙ omega arith in
    rw power (ground arith)

scale-pos : (k b : ℕ) → scale k (pos b) ≡ pos (k * b)
unfolding scale
scale-pos k b = ground arith

doubled :
    (base m : ℕ)
    → pos ((if ltb 8 (2 * m) then 8 else 2 * m) * base)
      ≡ min_ℤ (pos (m * base) +ℤ pos (m * base)) (pos (8 * base))
unfolding min_ℤ ◌+ℤ◌
doubled base m = elim (Bool-cases (ltb 8 (2 * m))) [
  | inl e ↦
      let le : 8 * base ≤ 2 * m * base = mul-le-mul_right base (omega (arith, ltb→lt _ _ e)) in
      rw e (ground (arith, le))
  | inr e ↦
      let le : 2 * m * base ≤ 8 * base = mul-le-mul_right base (ltb→ge _ _ e) in
      rw e (ground (arith, le))
]

-- The slash of a first offense is the base amount. Each upheld dispute doubles it, as long as it
-- stays within eight times the base amount, which no slash exceeds.
pub graduated_slash_doubles :
    (base n : ℕ)
    → (graduated_slash (pos base) 0 ≡ pos base)
      × (graduated_slash (pos base) (n + 1)
          ≡ min_ℤ (graduated_slash (pos base) n +ℤ graduated_slash (pos base) n) (pos (8 * base)))
unfolding graduated_slash
graduated_slash_doubles base n = (
  rw (scale-pos 1 base) (ap pos (omega arith)),
  rw (scale-pos (multiplier (n + 1)) base, scale-pos (multiplier n) base)
      (rw (multiplier-suc n) (doubled base (multiplier n))),
)
