-- ===== src/Verification/Verdicts.antt =====
-- What a digest is, and what a valid verdict means.
use gridix_infra.Quorum.Hashes.{hash_eq_iff}
use mathlib.Core.Path.{subst}
use gridix_infra.Models.Rows.{output_text, output_scalar, output_compound, Scalar, OutputHash}
use gridix_infra.Prelude.{
  zero, suc, ℕ, true, false, some, String, List, ◌≡◌, refl, ◌↔◌, ◌⊎◌, inl, inr, arith, length, all,
  Bool-cases, is_some, suc, Option, ap, or_default, sym, none, ◌∙◌,
}
use gridix_infra.Prelude.Int.{pos, eqb_ℤ→eq, eq→eqb_ℤ, ℤ, eqb_ℤ}
use gridix_infra.Models.{JobKind, kind_eq}
use gridix_infra.Models.Rows.{Job}
use gridix_infra.Verification.{
  AgentResultRequest, is_hex, is_hex_of, is_sha256_hex, is_int, proof_well_formed, matches, verify,
}
use Prim.Native.Char.{Char}
use Prim.Native.String.{[] as []ˢ, ◌∷◌ as ◌∷ˢ◌}
use mathlib.Core.List.{[], ◌∷◌}

abbrev pub chars : String → List Char
chars []ˢ = []
chars (c ∷ˢ s) = c ∷ chars s

text_of : String → Option OutputHash → String
text_of d (some (output_text s)) = s
text_of d _ = d

text_eq : {s t : String} → some (output_text s) ≡ some (output_text t) → s ≡ t
unfolding text_of
text_eq {s} e = ap (text_of s) e

some_text_eq : {s t : String} → some s ≡ some t → s ≡ t
some_text_eq {s} e = ap (λ o. or_default o s) e

some_hash_eq : {h k : OutputHash} → some h ≡ some k → h ≡ k
some_hash_eq {h} e = ap (λ o. or_default o h) e

is_hex_of_iff :
    (n : ℕ) (s : String)
    → (is_hex_of n s ≡ true) ↔ ((length (chars s) ≡ n) × (all is_hex (chars s) ≡ true))
is_hex_of_iff zero []ˢ = (λ h. (refl, refl), λ h. refl)
is_hex_of_iff zero (c ∷ˢ s) = (λ h. absurd (ground (arith, h)), λ h. absurd (omega (arith, h.0)))
is_hex_of_iff (suc n) []ˢ = (λ h. absurd (ground (arith, h)), λ h. absurd (omega (arith, h.0)))
is_hex_of_iff (suc n) (c ∷ˢ s) =
    let rest = is_hex_of_iff n s in
    elim (Bool-cases (is_hex c)) [
      | inl hex ↦
          rw hex (
            λ h. (omega (arith, (rest.0 h).0), (rest.0 h).1),
            λ h. rest.1 (omega (arith, h.0), h.1),
          )
      | inr other ↦ rw other (λ h. absurd (ground (arith, h)), λ h. absurd (ground (arith, h.1)))
    ]

-- A digest: 64 characters, each one of 0-9 and a-f.
abbrev pub IsDigest : String → Type 0
IsDigest s = (length (chars s) ≡ 64) × (all is_hex (chars s) ≡ true)

is_sha256_hex_iff :
    (o : Option OutputHash)
    → (is_sha256_hex o ≡ true) ↔ ((s : String) × (o ≡ some (output_text s)) × IsDigest s)
is_sha256_hex_iff none = (λ h. cc, λ (s, e, d). cc)
is_sha256_hex_iff (some (output_text s)) = (
  λ h. (s, refl, (is_hex_of_iff 64 s).0 h),
  λ (t, e, d). (is_hex_of_iff 64 s).1 (subst IsDigest (text_eq (sym e)) d),
)
is_sha256_hex_iff (some (output_scalar n)) = (λ h. cc, λ (s, e, d). cc)
is_sha256_hex_iff (some (output_compound n)) = (λ h. cc, λ (s, e, d). cc)

-- A result to be trusted, without reference to the checks or their order.
pub record IsTrusted (job : Job) (req : AgentResultRequest) : Type 0 where
  pub typed_exit : (n : ℤ) × (req.proof.exit_code ≡ Scalar.number n)
  pub has_output :
      (req.result_ref ≡ none)
      ⊎ ((s : String) × (req.proof.output_sha256 ≡ some (output_text s)) × IsDigest s)
  pub in_time : req.timed_out ≡ false
  pub exited : req.exit_code ≡ pos 0
  pub answered :
      (kind_eq job.kind JobKind.canary ≡ false)
      ⊎ ((s : String) × (job.expected_output_hash ≡ some s)
          × (req.proof.output_sha256 ≡ some (output_text s)))

is_int_iff : (x : Scalar) → (is_int x ≡ true) ↔ ((n : ℤ) × (x ≡ Scalar.number n))
is_int_iff Scalar.null = (λ h. cc, λ (n, e). cc)
is_int_iff (Scalar.boolean b) = (λ h. cc, λ (n, e). cc)
is_int_iff (Scalar.number n) = (λ h. (n, refl), λ _. refl)
is_int_iff (Scalar.text s) = (λ h. cc, λ (n, e). cc)

matches_iff :
    (expected : Option String) (claimed : Option OutputHash)
    → (matches expected claimed ≡ true)
      ↔ ((s : String) × (expected ≡ some s) × (claimed ≡ some (output_text s)))
matches_iff none claimed = (λ h. cc, λ (s, e, f). cc)
matches_iff (some s) none = (λ h. cc, λ (t, e, f). cc)
matches_iff (some s) (some h) = (
  λ e. (s, refl, ap some ((hash_eq_iff h (output_text s)).0 e)),
  λ (t, e, f).
      (hash_eq_iff h (output_text s)).1
        (some_hash_eq (f ∙ ap (λ x. some (output_text x)) (some_text_eq (sym e)))),
)

unclaimed : (o : Option String) → (is_some o ≡ false) ↔ (o ≡ none)
unclaimed none = (λ _. refl, λ _. refl)
unclaimed (some s) = (λ h. cc, λ e. cc)

-- The checks in the order of the code.
abbrev Checks : Job → AgentResultRequest → Type 0
Checks job req =
    (is_int req.proof.exit_code ≡ true)
    × ((is_some req.result_ref ≡ false) ⊎ (is_sha256_hex req.proof.output_sha256 ≡ true))
    × (req.timed_out ≡ false)
    × (eqb_ℤ req.exit_code (pos 0) ≡ true)
    × ((kind_eq job.kind JobKind.canary ≡ false)
        ⊎ (matches job.expected_output_hash req.proof.output_sha256 ≡ true))

verify-Checks :
    (job : Job) (req : AgentResultRequest) → ((verify job req).valid ≡ true) ↔ Checks job req
unfolding verify proof_well_formed
verify-Checks job req = (
  λ h. (
    ground (arith, h),
    ground (arith, h),
    ground (arith, h),
    ground (arith, h),
    ground (arith, h),
  ),
  λ (a, b, c, d, e). ground (arith, a, b, c, d, e),
)

either : {A B C D : Type 0} → (A → C) → (B → D) → A ⊎ B → C ⊎ D
either f g (inl a) = inl (f a)
either f g (inr b) = inr (g b)

-- A result is judged valid exactly when its proof has an exit code that is an integer and no
-- Boolean and, where a result is claimed, an output hash that is a digest, the run was in time and
-- exited with 0, and on a canary the answer is known and the output hash is that answer.
pub verify_valid_iff :
    (job : Job) (req : AgentResultRequest) → ((verify job req).valid ≡ true) ↔ IsTrusted job req
verify_valid_iff job req = (
  λ h.
      let (a, b, c, d, e) = (verify-Checks job req).0 h in
      record {
        typed_exit = (is_int_iff req.proof.exit_code).0 a;
        has_output =
            either (unclaimed req.result_ref).0 (is_sha256_hex_iff req.proof.output_sha256).0 b;
        in_time = c;
        exited = eqb_ℤ→eq req.exit_code (pos 0) d;
        answered =
            either (λ k. k) (matches_iff job.expected_output_hash req.proof.output_sha256).0 e;
      },
  λ t. (verify-Checks job req).1 (
    (is_int_iff req.proof.exit_code).1 t.typed_exit,
    either (unclaimed req.result_ref).1 (is_sha256_hex_iff req.proof.output_sha256).1 t.has_output,
    t.in_time,
    eq→eqb_ℤ req.exit_code (pos 0) t.exited,
    either (λ k. k) (matches_iff job.expected_output_hash req.proof.output_sha256).1 t.answered,
  ),
)
