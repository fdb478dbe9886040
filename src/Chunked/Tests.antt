-- ===== src/Chunked/Tests.antt =====
-- Three bytes in pieces of two, with a duplicate and another upload in between.
use gridix_infra.Chunked.Resume.{
  Call, piece, resume, other_append, call_all, upload_roundtrip, resume_completes,
}
use gridix_infra.Chunked.{Bytes, append, received, assemble, create, offset_mismatch}
use gridix_infra.Prelude.{List, [], ◌∷◌, some, ◌≡◌, refl, arith}

abbrev bytes : Bytes
bytes = 10 ∷ 20 ∷ 30 ∷ []

abbrev sent : List (Call 1 bytes)
sent = piece 0 2 ∷ piece 0 2 ∷ other_append 2 refl 0 (99 ∷ []) ∷ piece 2 2 ∷ []

duplicate_refused : append 1 0 (10 ∷ []) (call_all 1 bytes sent (create 1 [])) ≡ offset_mismatch 3 0
unfolding append received create
duplicate_refused = refl

upload_roundtrip_example : assemble 1 (call_all 1 bytes sent (create 1 [])) ≡ some bytes
unfolding received append create
upload_roundtrip_example = upload_roundtrip 1 bytes sent [] refl

resume_completes_example :
    assemble 1 (resume 1 bytes 3 2 (call_all 1 bytes (piece 0 1 ∷ []) (create 1 []))) ≡ some bytes
resume_completes_example =
    resume_completes 1 bytes (piece 0 1 ∷ []) [] 3 2 (omega arith) (omega arith)
