-- ===== src/Prelude/Int.antt =====
-- Signed amounts as a caller sends them.
use Prim.Native.Nat.{ℕ}
use mathlib.Core.Bool.{Bool, true, false, ◌&&◌}
use poker.Prelude.Tests.{ltb, leb}

-- `negsuc n` is -(n + 1).
pub data ℤ : Type 0 where
  pos : ℕ → ℤ
  negsuc : ℕ → ℤ

-- The number itself, and 0 for a negative one: read only where a test has shown the sign.
abbrev pub pos_part : ℤ → ℕ
pos_part (pos n) = n
pos_part (negsuc n) = 0

-- Tests of a signed amount against one that is not negative.
abbrev pub ltb_ℤ : ℤ → ℕ → Bool
ltb_ℤ (pos n) m = ltb n m
ltb_ℤ (negsuc n) m = true

abbrev pub leb_ℤ : ℤ → ℕ → Bool
leb_ℤ (pos n) m = leb n m
leb_ℤ (negsuc n) m = true

abbrev pub eqb_ℤ : ℤ → ℕ → Bool
eqb_ℤ (pos n) m = leb n m && leb m n
eqb_ℤ (negsuc n) m = false
