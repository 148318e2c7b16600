-- ===== src/Tiling/Grid.antt =====
-- The natural numbers behind the tiling: how many tiles cover an extent, and which one an offset is in.
use native.Mathlib.Nat.{
  div-lt_iff_lt-mul, le-div_iff_mul-le, div-add-mod', mod-lt, mul_comm, mul-add-mod_self_right,
  mul-add-div_right, div-eq_of_lt, mod-eq_of_lt, add-zero,
}
use czi_pyramidizer.Prelude.{ℕ, ◌+◌, ◌-◌, ◌*◌, ◌/◌, ◌%◌, ◌≤◌, ◌<◌, ◌≡◌, ap, ◌∙◌, arith}

-- How many tiles of extent t cover the extent w.
abbrev pub tile_count : ℕ → ℕ → ℕ
tile_count w t = (w + t - 1) / t

module _ (w t : ℕ) (t_pos : 0 < t) where
  -- Each tile begins inside the extent.
  pub start-lt : (k : ℕ) → k < tile_count w t → k * t < w
  start-lt k h =
      omega (arith, (le-div_iff_mul-le {k = t} {x = k + 1} {y = w + t - 1} t_pos).0 (omega arith))

  -- Each offset inside the extent is in a tile.
  pub offset-tile : (d : ℕ) → d < w → d / t < tile_count w t
  offset-tile d h =
      (div-lt_iff_lt-mul {x = d} t_pos).1
        (omega (arith, div-add-mod' (w + t - 1) t, mod-lt (w + t - 1) t_pos))

-- An offset is in the tile that its quotient names, and in no other.
pub in_tile : (d t : ℕ) → 0 < t → (d / t * t ≤ d) × (d < d / t * t + t)
in_tile d t h = omega (arith, div-add-mod' d t, mod-lt d h)

pub in_tile_unique : (d t k : ℕ) → 0 < t → k * t ≤ d → d < k * t + t → k ≡ d / t
in_tile_unique d t k h lo hi = grind (arith, in_tile d t h)

-- Row and column of a number, and back.
pub row_of : (c r k : ℕ) → k < c → (r * c + k) / c ≡ r
row_of c r k h =
    mul-add-div_right {m = c} (omega arith) r k
    ∙ (ap (λ (q : ℕ). r + q) (div-eq_of_lt h) ∙ add-zero r)

pub col_of : (c r k : ℕ) → k < c → (r * c + k) % c ≡ k
col_of c r k h = mul-add-mod_self_right r c k ∙ mod-eq_of_lt h

pub row-lt : (c r k : ℕ) → 0 < c → k < c * r → k / c < r
row-lt c r k c_pos h = (div-lt_iff_lt-mul {x = k} {y = r} c_pos).1 (rw (mul_comm r c) h)

pub number-lt : (c r i j : ℕ) → i < r → j < c → i * c + j < c * r
number-lt c r i j p q = grind arith
