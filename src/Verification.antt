-- ===== src/Verification.antt =====
-- api/app/verification.py: whether to trust one submitted result.
pub mod Verdicts
mod Tests
use gridix_infra.Quorum.Hashes.{hash_eq}
use gridix_infra.Models.Rows.{output_text, OutputHash}
use gridix_infra.Prelude.{
  zero, suc, ℕ, Bool, true, false, not, ◌&&◌, ◌||◌, ◌==◌, Option, none, some, String, if◌then◌else◌,
  str_eq, leb, is_some, suc,
}
use gridix_infra.Prelude.Int.{ℤ, pos, eqb_ℤ}
use gridix_infra.Models.{JobKind, kind_eq}
use gridix_infra.Models.Rows.{Job, Proof, Scalar}
use Prim.Native.Char.{Char, code}
use Prim.Native.String.{[], ◌∷◌}

-- `AgentResultRequest`
pub record AgentResultRequest : Type 0 where
  pub result_ref : Option String
  pub exit_code : ℤ
  pub proof : Proof
  pub timed_out : Bool

pub record Verdict : Type 0 where
  pub valid : Bool
  pub reason : String
  pub is_canary : Bool
  pub canary_passed : Option Bool

-- `[0-9a-f]`
abbrev pub is_hex : Char → Bool
is_hex c = leb 48 (code c) && leb (code c) 57 || leb 97 (code c) && leb (code c) 102

-- `_SHA256_HEX.fullmatch`, for any number of digits.
abbrev pub is_hex_of : ℕ → String → Bool
is_hex_of zero [] = true
is_hex_of zero (c ∷ s) = false
is_hex_of (suc n) [] = false
is_hex_of (suc n) (c ∷ s) = is_hex c && is_hex_of n s

abbrev pub is_sha256_hex : Option OutputHash → Bool
is_sha256_hex (some (output_text s)) = is_hex_of 64 s
is_sha256_hex _ = false

-- `isinstance(value, int) and not isinstance(value, bool)`
abbrev pub is_int : Scalar → Bool
is_int (Scalar.number n) = true
is_int _ = false

-- `_proof_well_formed`
unfoldable pub proof_well_formed : AgentResultRequest → Bool
proof_well_formed req =
    if not (is_int req.proof.exit_code)
    then false
    else not (is_some req.result_ref) || is_sha256_hex req.proof.output_sha256

abbrev pub refused : String → Bool → Verdict
refused reason is_canary = record {
  valid = false;
  reason = reason;
  is_canary = is_canary;
  canary_passed = if is_canary then some false else none;
}

-- `expected is not None and claimed == expected`
abbrev pub matches : Option String → Option OutputHash → Bool
matches none claimed = false
matches (some expected) none = false
matches (some expected) (some claimed) = hash_eq claimed (output_text expected)

abbrev pub canary_verdict : Bool → Verdict
canary_verdict passed = record {
  valid = passed;
  reason = if passed then "canary_pass" else "canary_fail";
  is_canary = true;
  canary_passed = some passed;
}

abbrev pub accepted : Verdict
accepted = record { valid = true; reason = "ok"; is_canary = false; canary_passed = none }

unfoldable pub verify : Job → AgentResultRequest → Verdict
verify job req =
    let is_canary = kind_eq job.kind JobKind.canary in
    if not (proof_well_formed req)
    then refused "malformed_proof" is_canary
    else if req.timed_out
    then refused "timeout" is_canary
    else if not (eqb_ℤ req.exit_code (pos 0))
    then refused "nonzero_exit" is_canary
    else if is_canary
    then canary_verdict (matches job.expected_output_hash req.proof.output_sha256)
    else accepted
