-- ===== src/Verification/Tests.antt =====
-- Verdicts on concrete results, and the theorems at them.
use gridix_infra.Models.Rows.{output_text}
use gridix_infra.Prelude.{true, false, some, ◌≡◌, refl, ◌↔◌, String}
use gridix_infra.Prelude.Int.{pos}
use gridix_infra.Models.Rows.{Scalar}
use gridix_infra.Models.Samples.{new_job}
use gridix_infra.Verification.{AgentResultRequest, verify, proof_well_formed}
use gridix_infra.Verification.Verdicts.{verify_valid_iff, IsTrusted}

abbrev empty_digest : String
empty_digest = "e3b0c44298fc1c149afbf4c8996fb92427ae41e4649b934ca495991b7852b855"

abbrev good_result : AgentResultRequest
good_result = record {
  result_ref = some "blob";
  exit_code = pos 0;
  proof = record {
    exit_code = Scalar.number (pos 0);
    output_sha256 = some (output_text empty_digest);
  };
  timed_out = false;
}

good_result-valid : (verify new_job good_result).valid ≡ true
unfolding verify proof_well_formed
good_result-valid = refl

-- `True` is no exit code.
boolean_exit :
    (verify new_job (record good_result {
      proof = record {
        exit_code = Scalar.boolean true;
        output_sha256 = some (output_text empty_digest);
      };
    })).reason
    ≡ "malformed_proof"
unfolding verify proof_well_formed
boolean_exit = refl

verify_valid_iff_example :
    ((verify new_job good_result).valid ≡ true) ↔ IsTrusted new_job good_result
verify_valid_iff_example = verify_valid_iff new_job good_result
