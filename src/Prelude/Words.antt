-- ===== src/Prelude/Words.antt =====
-- The conversions between C++'s `int` (32 bits) and `std::uint32_t`. An `int` is an integer of ℤ
-- that lies in the range `IsInt32`; a `std::uint32_t` is a natural number below 2 ^ 32.
use czi_pyramidizer.Prelude.Tests.{ltb, if◌then◌else◌}
use czi_pyramidizer.Prelude.Int.{ℤ, pos, negsuc, pos_part, neg_part, sub_ℕ}
use Prim.Native.Nat.{ℕ, ◌+◌, ◌-◌, ◌%◌, ◌≤◌, ◌<◌}
use mathlib.Core.Path.{◌≡◌}
use native.Mathlib.Omega.{arith}

abbrev pub u32_mod : ℕ
u32_mod = 4294967296

abbrev pub int_limit : ℕ
int_limit = 2147483648

abbrev pub IsInt32 : ℤ → Type 0
IsInt32 z = (pos_part z < int_limit) × (neg_part z ≤ int_limit)

-- The conversion of an `int` to `std::uint32_t`, modulo 2 ^ 32.
unfoldable pub to_u32 : ℤ → ℕ
to_u32 z = (pos_part z + (u32_mod - neg_part z % u32_mod)) % u32_mod

-- The conversion of a `std::uint32_t` to `int`, modulo 2 ^ 32.
unfoldable pub to_int : ℕ → ℤ
to_int n = if ltb n int_limit then pos n else sub_ℕ n u32_mod

-- Both conversions keep the value modulo 2 ^ 32.
pub to_u32-pos : (n : ℕ) → n < u32_mod → to_u32 (pos n) ≡ n
unfolding to_u32
to_u32-pos n h = ground arith

pub to_u32-negsuc : (n : ℕ) → n < u32_mod → to_u32 (negsuc n) ≡ u32_mod - (n + 1)
unfolding to_u32
to_u32-negsuc n h = ground arith

-- A small number keeps its value as an `int`.
pub to_int-small : (n : ℕ) → n < int_limit → to_int n ≡ pos n
unfolding to_int
to_int-small n h = ground arith

pub to_int-mod : (n : ℕ) → n < int_limit → to_int (n % u32_mod) ≡ pos n
unfolding to_int
to_int-mod n h = ground arith

abbrev pub u64_mod : ℕ
u64_mod = 18446744073709551616

-- The conversion of an `int` to `std::size_t`, modulo 2 ^ 64.
unfoldable pub to_size : ℤ → ℕ
to_size z = (pos_part z + (u64_mod - neg_part z % u64_mod)) % u64_mod

pub to_size-pos : (n : ℕ) → n < int_limit → to_size (pos n) ≡ n
unfolding to_size
to_size-pos n h = ground arith
