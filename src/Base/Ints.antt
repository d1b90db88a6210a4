-- ===== src/Base/Ints.antt =====
-- Integers, as an `int` of the source that may be negative, and what they are as a `size_t`.
use Prim.Native.Nat.{ℕ, ◌+◌, ◌-◌, ◌^◌}
use phobos.Base.Tests.{ltb, if◌then◌else◌}

-- `negsuc n` is -(n + 1).
pub data ℤ : Type 0 where
  pos negsuc : ℕ → ℤ

abbrev pub as_size_t : ℤ → ℕ
as_size_t (pos n) = n
as_size_t (negsuc n) = 2 ^ 64 - (n + 1)

abbrev pub sub_int : ℕ → ℕ → ℤ
sub_int a b = if ltb a b then negsuc (b - a - 1) else pos (a - b)
