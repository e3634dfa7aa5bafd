-- ===== src/Prelude/Word.antt =====
-- 64-bit unsigned integers, whose arithmetic wraps around.
use Prim.Native.Nat.{ℕ, ◌+◌, ◌-◌, ◌%◌, ◌^◌}

abbrev pub u64_mod : ℕ
u64_mod = 2 ^ 64

-- `++x` on `std::uint64_t`.
abbrev pub inc64 : ℕ → ℕ
inc64 x = (x + 1) % u64_mod

-- `a - b` on `std::size_t`.
abbrev pub sub64 : ℕ → ℕ → ℕ
sub64 a b = (a + u64_mod - b) % u64_mod
