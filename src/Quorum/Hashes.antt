-- ===== src/Quorum/Hashes.antt =====
-- Equality of output hashes, and which of them Python can hash.
use gridix_infra.Prelude.{
  Bool, true, false, ◌==◌, str_eq, eq_iff, ◌↔◌, ◌≡◌, refl, ap, ==→eq, ==_refl,
}
use gridix_infra.Models.Rows.{OutputHash, output_text, output_scalar, output_compound}

unfoldable pub hash_eq : OutputHash → OutputHash → Bool
hash_eq (output_text a) (output_text b) = str_eq a b
hash_eq (output_scalar a) (output_scalar b) = a == b
hash_eq (output_compound a) (output_compound b) = a == b
hash_eq _ _ = false

-- A list or an object is unhashable.
abbrev pub is_hashable : OutputHash → Bool
is_hashable (OutputHash.output_compound n) = false
is_hashable _ = true

hash_eq_sound : (h k : OutputHash) → hash_eq h k ≡ true → h ≡ k
unfolding hash_eq
hash_eq_sound (output_text a) (output_text b) e = ap output_text ((eq_iff a b).0 e)
hash_eq_sound (output_text a) (output_scalar b) e = cc
hash_eq_sound (output_text a) (output_compound b) e = cc
hash_eq_sound (output_scalar a) (output_text b) e = cc
hash_eq_sound (output_scalar a) (output_scalar b) e = ap output_scalar (==→eq a b e)
hash_eq_sound (output_scalar a) (output_compound b) e = cc
hash_eq_sound (output_compound a) (output_text b) e = cc
hash_eq_sound (output_compound a) (output_scalar b) e = cc
hash_eq_sound (output_compound a) (output_compound b) e = ap output_compound (==→eq a b e)

pub hash_eq_refl : (h : OutputHash) → hash_eq h h ≡ true
unfolding hash_eq
hash_eq_refl (output_text a) = (eq_iff a a).1 refl
hash_eq_refl (output_scalar a) = ==_refl a
hash_eq_refl (output_compound a) = ==_refl a

pub hash_eq_iff : (h k : OutputHash) → (hash_eq h k ≡ true) ↔ (h ≡ k)
hash_eq_iff h k = (hash_eq_sound h k, λ e. rw e (hash_eq_refl k))
