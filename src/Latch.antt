-- ===== src/Latch.antt =====
-- libpyramidizer/src/pyramid_utilities.cpp: `PyramidUtilities::EnlargeAndLatch`, which enlarges a
-- rectangle so that its edges lie on multiples of a number. The multiple is a `std::uint32_t`, so
-- the divisions are unsigned, also for a negative coordinate; signed sums are exact here, and the
-- theorems carry the ranges in which they do not overflow.
pub mod Floor
pub mod Bounds
use czi_pyramidizer.Prelude.{ℕ, ◌+◌, ◌-◌, ◌*◌, ◌%◌}
use czi_pyramidizer.Prelude.Int.{ℤ, ◌+ℤ◌, ◌-ℤ◌}
use czi_pyramidizer.Prelude.Words.{u32_mod, to_u32, to_int}
use czi_pyramidizer.Prelude.Outcome.{Outcome, ok, ◌>>=◌, div_u32}
use czi_pyramidizer.Rect.{IntRect}

-- `(u / multiple_of) * multiple_of`, assigned to an `int`.
pub latch : ℕ → ℕ → Outcome ℤ
latch u multiple_of = do q ← div_u32 u multiple_of; ok (to_int (q * multiple_of % u32_mod))

-- `z + multiple_of - 1` for an `int` z.
pub enlarge : ℤ → ℕ → ℕ
enlarge z multiple_of = (to_u32 z + multiple_of + (u32_mod - 1)) % u32_mod

unfoldable pub enlarge_and_latch : IntRect → ℕ → Outcome IntRect
unfolding latch enlarge
enlarge_and_latch rect multiple_of = do
  x1_latched ← latch (to_u32 rect.x) multiple_of
  y1_latched ← latch (to_u32 rect.y) multiple_of
  x2_latched ← latch (enlarge (rect.x +ℤ rect.w) multiple_of) multiple_of
  y2_latched ← latch (enlarge (rect.y +ℤ rect.h) multiple_of) multiple_of
  ok (record {
    x = x1_latched;
    y = y1_latched;
    w = x2_latched -ℤ x1_latched;
    h = y2_latched -ℤ y1_latched;
  })
