-- ===== src/Prelude/Int.antt =====
-- Signed integers over the native numbers: amounts of money and reputation scores.
use Prim.Native.Nat.{ℕ, suc, ◌+◌, ◌-◌, ◌*◌, ◌≤◌}
use mathlib.Core.Path.{◌≡◌}
use mathlib.Core.Bool.{Bool, true, false}
use mathlib.Core.Logic.{◌⊎◌}
use native.Mathlib.Omega.{arith}
use gridix_infra.Prelude.Tests.{ltb→lt, ltb→ge, leb→le, leb→gt, ltb, leb, ◌==◌, if◌then◌else◌}

-- `negsuc n` is -(n + 1).
pub data ℤ : Type 0 where
  pos : ℕ → ℤ
  negsuc : ℕ → ℤ

abbrev pub pos_part : ℤ → ℕ
pos_part (pos n) = n
pos_part (negsuc n) = 0

abbrev pub neg_part : ℤ → ℕ
neg_part (pos n) = 0
neg_part (negsuc n) = suc n

-- a - b, as an integer.
abbrev pub sub_ℕ : ℕ → ℕ → ℤ
sub_ℕ a b = if leb b a then pos (a - b) else negsuc (b - a - 1)

infixl 65 ◌+ℤ◌ ◌-ℤ◌
infix 50 ◌≤ℤ◌
unfoldable pub ◌+ℤ◌ : ℤ → ℤ → ℤ
a +ℤ b = sub_ℕ (pos_part a + pos_part b) (neg_part a + neg_part b)

unfoldable pub ◌-ℤ◌ : ℤ → ℤ → ℤ
a -ℤ b = sub_ℕ (pos_part a + neg_part b) (neg_part a + pos_part b)

-- n * a
unfoldable pub scale : ℕ → ℤ → ℤ
scale n a = sub_ℕ (n * pos_part a) (n * neg_part a)

abbrev pub ◌≤ℤ◌ : ℤ → ℤ → Type 0
a ≤ℤ b = pos_part a + neg_part b ≤ pos_part b + neg_part a

abbrev pub ltb_ℤ : ℤ → ℤ → Bool
ltb_ℤ a b = ltb (pos_part a + neg_part b) (pos_part b + neg_part a)

abbrev pub leb_ℤ : ℤ → ℤ → Bool
leb_ℤ a b = leb (pos_part a + neg_part b) (pos_part b + neg_part a)

abbrev pub eqb_ℤ : ℤ → ℤ → Bool
eqb_ℤ a b = (pos_part a + neg_part b) == (pos_part b + neg_part a)

-- Python's `min` and `max`: of two equal values the first.
unfoldable pub min_ℤ : ℤ → ℤ → ℤ
min_ℤ a b = if ltb_ℤ b a then b else a

unfoldable pub max_ℤ : ℤ → ℤ → ℤ
max_ℤ a b = if ltb_ℤ a b then b else a

-- With one lemma for each operation the operations can stay shut.
pub +ℤ_parts :
    (a b : ℤ)
    → pos_part (a +ℤ b) + neg_part a + neg_part b ≡ neg_part (a +ℤ b) + pos_part a + pos_part b
unfolding ◌+ℤ◌
+ℤ_parts a b = ground arith

pub -ℤ_parts :
    (a b : ℤ)
    → pos_part (a -ℤ b) + neg_part a + pos_part b ≡ neg_part (a -ℤ b) + pos_part a + neg_part b
unfolding ◌-ℤ◌
-ℤ_parts a b = ground arith

pub scale_parts :
    (n : ℕ) (a : ℤ) → pos_part (scale n a) + n * neg_part a ≡ neg_part (scale n a) + n * pos_part a
unfolding scale
scale_parts n a = ground arith

pub eq_of_parts : (a b : ℤ) → pos_part a + neg_part b ≡ pos_part b + neg_part a → a ≡ b
eq_of_parts a b h = ground arith

pub ruleset int_laws = (arith, +ℤ_parts, -ℤ_parts, eq_of_parts)

-- The laws, and what the tests mean.
pub ruleset int_tests = (int_laws, ltb→lt, ltb→ge, leb→le, leb→gt)

pub min_ℤ-le : (a b : ℤ) → (min_ℤ a b ≤ℤ a) × (min_ℤ a b ≤ℤ b)
unfolding min_ℤ
min_ℤ-le a b = ground arith

pub min_ℤ_cases : (a b : ℤ) → (min_ℤ a b ≡ a) ⊎ (min_ℤ a b ≡ b)
unfolding min_ℤ
min_ℤ_cases a b = ground arith

pub +ℤ_assoc : (a b c : ℤ) → a +ℤ b +ℤ c ≡ a +ℤ (b +ℤ c)
+ℤ_assoc a b c = omega int_laws

pub +ℤ_comm : (a b : ℤ) → a +ℤ b ≡ b +ℤ a
+ℤ_comm a b = omega int_laws

pub zero-+ℤ : (a : ℤ) → pos 0 +ℤ a ≡ a
zero-+ℤ a = omega int_laws

pub eqb_ℤ→eq : (a b : ℤ) → eqb_ℤ a b ≡ true → a ≡ b
eqb_ℤ→eq a b h = eq_of_parts a b (ground arith)

pub eq→eqb_ℤ : (a b : ℤ) → a ≡ b → eqb_ℤ a b ≡ true
eq→eqb_ℤ a b h = rw h (ground arith)

pub leb_ℤ→le : (a b : ℤ) → leb_ℤ a b ≡ true → a ≤ℤ b
leb_ℤ→le a b h = ground arith

pub ltb_ℤ→le : (a b : ℤ) → ltb_ℤ a b ≡ false → b ≤ℤ a
ltb_ℤ→le a b h = ground arith

pub eq_of_sub_zero : (a b : ℤ) → a -ℤ b ≡ pos 0 → a ≡ b
unfolding ◌-ℤ◌
eq_of_sub_zero a b h = ground arith

-- An amount, or nothing where it is negative.
abbrev pub at_least_zero : ℤ → ℤ
at_least_zero x = max_ℤ (pos 0) x

pub at_least_zero_nonpos : (x : ℤ) → leb_ℤ x (pos 0) ≡ true → at_least_zero x ≡ pos 0
unfolding max_ℤ
at_least_zero_nonpos x h = ground arith

pub at_least_zero_pos : (x : ℤ) → leb_ℤ x (pos 0) ≡ false → at_least_zero x ≡ x
unfolding max_ℤ
at_least_zero_pos x h = ground arith

pub leb_ℤ→nonneg : (x : ℤ) → leb_ℤ x (pos 0) ≡ false → pos 0 ≤ℤ x
leb_ℤ→nonneg x h = ground arith

pub nonneg→ltb : (x : ℤ) → pos 0 ≤ℤ x → ltb_ℤ x (pos 0) ≡ false
nonneg→ltb x h = ground arith

pub at_least_zero_nonneg : (x : ℤ) → pos 0 ≤ℤ x → at_least_zero x ≡ x
unfolding max_ℤ
at_least_zero_nonneg x h = ground arith

pub sub_nonneg : (a b : ℤ) → b ≤ℤ a → pos 0 ≤ℤ a -ℤ b
sub_nonneg a b h = omega int_laws

pub ge→ltb_ℤ : (a b : ℤ) → b ≤ℤ a → ltb_ℤ a b ≡ false
ge→ltb_ℤ a b h = ground arith

pub zero_less_zero : pos 0 -ℤ pos 0 ≡ pos 0
zero_less_zero = omega int_laws

pub le-at_least_zero : (x y : ℤ) → x ≤ℤ y → x ≤ℤ at_least_zero y
unfolding max_ℤ
le-at_least_zero x y h = ground arith

pub at_least_zero_bound : (x : ℤ) → pos 0 ≤ℤ at_least_zero x
unfolding max_ℤ
at_least_zero_bound x = ground arith

pub at_least_zero_least : (x y : ℤ) → x ≤ℤ y → pos 0 ≤ℤ y → at_least_zero x ≤ℤ y
unfolding max_ℤ
at_least_zero_least x y h k = ground arith
