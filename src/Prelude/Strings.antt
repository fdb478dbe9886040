-- ===== src/Prelude/Strings.antt =====
-- Equality of texts, as a Boolean test.
pub use text.Mathlib.Text.{◌==◌ as str_eq}
pub use text.Mathlib.TextEquality.{eq_iff}
pub use text.Mathlib.TextPositions.{eq_refl}
