-- ===== src/Latch/Floor.antt =====
-- Rounding an integer down and up to a multiple, and what `latch` computes in these terms.
use native.Mathlib.Nat.{
  mul_comm, mul-mod_left, div-lt_iff_lt-mul, div-mul-le_self, div-add-mod', mod-lt,
}
use czi_pyramidizer.Prelude.{ℕ, suc, ◌+◌, ◌-◌, ◌*◌, ◌/◌, ◌%◌, ◌≤◌, ◌<◌, ◌≡◌, ap, ◌∙◌, arith}
use czi_pyramidizer.Prelude.Int.{ℤ, pos, negsuc, pos_part, neg_part, ◌+ℤ◌, ◌≤ℤ◌, ◌<ℤ◌}
use czi_pyramidizer.Prelude.Words.{
  u32_mod, int_limit, IsInt32, to_u32, to_int, to_u32-pos, to_u32-negsuc,
}
use czi_pyramidizer.Prelude.Outcome.{ok, div_u32}
use czi_pyramidizer.Latch.{latch, enlarge}

-- The greatest multiple of m that is not above z.
abbrev pub floor_to : ℕ → ℤ → ℤ
floor_to m (pos n) = pos (n / m * m)
floor_to m (negsuc n) = negsuc (n / m * m + (m - 1))

-- The least multiple of m that is not below z.
abbrev pub ceil_to : ℕ → ℤ → ℤ
ceil_to m z = floor_to m (z +ℤ pos (m - 1))

-- An integer that m divides.
abbrev pub IsMultiple : ℕ → ℤ → Type 0
IsMultiple m z = (pos_part z % m ≡ 0) × (neg_part z % m ≡ 0)

div_eq : (n m k r : ℕ) → r < m → n ≡ k * m + r → n / m ≡ k
div_eq n m k r h e = grind arith

pub floor_to_bounds : (m : ℕ) (z : ℤ) → 0 < m → (floor_to m z ≤ℤ z) × (z <ℤ floor_to m z +ℤ pos m)
unfolding ◌+ℤ◌
floor_to_bounds m (pos n) h = grind arith
floor_to_bounds m (negsuc n) h = grind arith

pub floor_to-IsMultiple : (m : ℕ) (z : ℤ) → 0 < m → IsMultiple m (floor_to m z)
floor_to-IsMultiple m (pos n) h = (mul-mod_left (n / m) m, grind arith)
floor_to-IsMultiple m (negsuc n) h = (grind arith, rw up (mul-mod_left (n / m + 1) m))
  where
    up : suc (n / m * m + (m - 1)) ≡ (n / m + 1) * m
    up = grind arith

-- Unsigned wrap-around does not disturb the sum.
enlarge-to_u32 :
    (z : ℤ) (m : ℕ)
    → 0 < m
    → m ≤ int_limit
    → IsInt32 z
    → IsInt32 (z +ℤ pos (m - 1))
    → enlarge z m ≡ to_u32 (z +ℤ pos (m - 1))
unfolding enlarge to_u32 ◌+ℤ◌
enlarge-to_u32 (pos n) m h l r s = ground arith
enlarge-to_u32 (negsuc n) m h l r s = ground arith

-- Division by a divisor of 2 ^ 31 is exact up to the sign bit.
module _ (m q : ℕ) (m_pos : 0 < m) (divides : m * q ≡ int_limit) where
  latch-ok : (u : ℕ) → latch u m ≡ ok (to_int (u / m * m % u32_mod))
  unfolding latch div_u32
  latch-ok u = ground arith

  quotient-lt : (n : ℕ) → n < int_limit → n / m < q
  quotient-lt n h = (div-lt_iff_lt-mul m_pos).1 (rw (mul_comm q m) (omega arith))

  block-le : (n : ℕ) → n < int_limit → n / m * m + m ≤ int_limit
  block-le n h = grind (arith, quotient-lt n h)

  spread : (n : ℕ) → n < int_limit → u32_mod ≡ (2 * q - (n / m + 1)) * m + n / m * m + m
  spread n h = omega (arith, ap (λ (t : ℕ). t * m) split)
    where
      split : 2 * q ≡ 2 * q - (n / m + 1) + (n / m + 1)
      split = omega (arith, quotient-lt n h)

  -- With n = a * m + b the complement of n is a multiple of m plus m - 1 - b.
  complement : (n : ℕ) → n < int_limit → (u32_mod - (n + 1)) / m ≡ 2 * q - (n / m + 1)
  complement n h =
      div_eq (u32_mod - (n + 1)) m (2 * q - (n / m + 1)) (m - 1 - n % m) (omega arith)
        (omega (arith, spread n h, div-add-mod' n m, mod-lt n m_pos))

  -- The low half of the unsigned range: an `int` that is not negative.
  to_int-low : (n : ℕ) → n < int_limit → to_int (n / m * m % u32_mod) ≡ pos (n / m * m)
  unfolding to_int
  to_int-low n h = ground (arith, div-mul-le_self n m)

  -- The high half: a negative `int`.
  to_int-high :
      (n : ℕ)
      → n < int_limit
      → to_int ((u32_mod - (n + 1)) / m * m % u32_mod) ≡ negsuc (n / m * m + (m - 1))
  unfolding to_int
  to_int-high n h = rw (complement n h) (ground (arith, spread n h, block-le n h))

  -- On an `int` the unsigned division latches downwards, whatever the sign.
  pub latch-to_u32 : (z : ℤ) → IsInt32 z → latch (to_u32 z) m ≡ ok (floor_to m z)
  latch-to_u32 (pos n) h = rw (to_u32-pos n (omega arith)) (latch-ok n ∙ ap ok (to_int-low n h.0))
  latch-to_u32 (negsuc n) h =
      rw (to_u32-negsuc n (omega arith)) (latch-ok _ ∙ ap ok (to_int-high n h.1))

  pub latch-enlarge :
      (z : ℤ) → IsInt32 z → IsInt32 (z +ℤ pos (m - 1)) → latch (enlarge z m) m ≡ ok (ceil_to m z)
  latch-enlarge z h k = rw same (latch-to_u32 (z +ℤ pos (m - 1)) k)
    where
      same : enlarge z m ≡ to_u32 (z +ℤ pos (m - 1))
      same = enlarge-to_u32 z m m_pos (omega (arith, block-le 0 (omega arith))) h k
