-- ===== src/Latch/Bounds.antt =====
-- What `EnlargeAndLatch` promises: the least rectangle on multiples around the given one.
use czi_pyramidizer.Prelude.{ℕ, ◌-◌, ◌*◌, ◌<◌, ◌≡◌}
use czi_pyramidizer.Prelude.Int.{ℤ, pos, ◌+ℤ◌, ◌-ℤ◌, ◌≤ℤ◌, ◌<ℤ◌, int_laws}
use czi_pyramidizer.Prelude.Words.{int_limit, IsInt32}
use czi_pyramidizer.Prelude.Outcome.{ok}
use czi_pyramidizer.Rect.{IntRect, Within}
use czi_pyramidizer.Latch.{enlarge_and_latch}
use czi_pyramidizer.Latch.Floor.{
  floor_to, ceil_to, IsMultiple, floor_to_bounds, floor_to-IsMultiple, latch-to_u32, latch-enlarge,
}

-- The edges of the rectangle are `int`s, also when m - 1 is added to the right and lower ones.
pub record IsLatchable (m : ℕ) (r : IntRect) : Type 0 where
  pub left : IsInt32 r.x
  pub top : IsInt32 r.y
  pub right : IsInt32 (r.x +ℤ r.w)
  pub bottom : IsInt32 (r.y +ℤ r.h)
  pub right_above : IsInt32 (r.x +ℤ r.w +ℤ pos (m - 1))
  pub bottom_above : IsInt32 (r.y +ℤ r.h +ℤ pos (m - 1))

-- The edges of l lie on multiples of m, around r and less than m away.
pub record IsLatched (m : ℕ) (r l : IntRect) : Type 0 where
  pub left : (l.x ≤ℤ r.x) × (r.x <ℤ l.x +ℤ pos m)
  pub top : (l.y ≤ℤ r.y) × (r.y <ℤ l.y +ℤ pos m)
  pub right : (r.x +ℤ r.w ≤ℤ l.x +ℤ l.w) × (l.x +ℤ l.w <ℤ r.x +ℤ r.w +ℤ pos m)
  pub bottom : (r.y +ℤ r.h ≤ℤ l.y +ℤ l.h) × (l.y +ℤ l.h <ℤ r.y +ℤ r.h +ℤ pos m)
  pub left_on : IsMultiple m l.x
  pub top_on : IsMultiple m l.y
  pub right_on : IsMultiple m (l.x +ℤ l.w)
  pub bottom_on : IsMultiple m (l.y +ℤ l.h)

abbrev pub latched : ℕ → IntRect → IntRect
latched m r = record {
  x = floor_to m r.x;
  y = floor_to m r.y;
  w = ceil_to m (r.x +ℤ r.w) -ℤ floor_to m r.x;
  h = ceil_to m (r.y +ℤ r.h) -ℤ floor_to m r.y;
}

-- Adding back the difference gives the other edge.
edge : (a b : ℤ) → a +ℤ (b -ℤ a) ≡ b
edge a b = omega int_laws

ceil_to_bounds : (m : ℕ) (z : ℤ) → 0 < m → (z ≤ℤ ceil_to m z) × (ceil_to m z <ℤ z +ℤ pos m)
ceil_to_bounds m z h = omega (int_laws, floor_to_bounds m (z +ℤ pos (m - 1)) h)

pub latched-IsLatched : (m : ℕ) (r : IntRect) → 0 < m → IsLatched m r (latched m r)
latched-IsLatched m r h = record {
  left = floor_to_bounds m r.x h;
  top = floor_to_bounds m r.y h;
  right = rw (edge (floor_to m r.x) (ceil_to m (r.x +ℤ r.w))) (ceil_to_bounds m (r.x +ℤ r.w) h);
  bottom = rw (edge (floor_to m r.y) (ceil_to m (r.y +ℤ r.h))) (ceil_to_bounds m (r.y +ℤ r.h) h);
  left_on = floor_to-IsMultiple m r.x h;
  top_on = floor_to-IsMultiple m r.y h;
  right_on =
      rw (edge (floor_to m r.x) (ceil_to m (r.x +ℤ r.w)))
        (floor_to-IsMultiple m (r.x +ℤ r.w +ℤ pos (m - 1)) h);
  bottom_on =
      rw (edge (floor_to m r.y) (ceil_to m (r.y +ℤ r.h)))
        (floor_to-IsMultiple m (r.y +ℤ r.h +ℤ pos (m - 1)) h);
}

pub enlarge_and_latch-latched :
    (r : IntRect) (m q : ℕ)
    → 0 < m
    → m * q ≡ int_limit
    → IsLatchable m r
    → enlarge_and_latch r m ≡ ok (latched m r)
unfolding enlarge_and_latch
enlarge_and_latch-latched r m q h d v = rw (
  latch-to_u32 m q h d r.x v.left,
  latch-to_u32 m q h d r.y v.top,
  latch-enlarge m q h d (r.x +ℤ r.w) v.right v.right_above,
  latch-enlarge m q h d (r.y +ℤ r.h) v.bottom v.bottom_above,
)

-- For a divisor of 2 ^ 31, and so for each power of two that the callers pass,
-- `enlarge_and_latch` returns a rectangle on multiples that lies around the given one, each edge
-- less than the multiple away. This holds for negative coordinates too, though the division is
-- unsigned.
pub enlarge_and_latch-IsLatched :
    (r : IntRect) (m q : ℕ)
    → 0 < m
    → m * q ≡ int_limit
    → IsLatchable m r
    → (l : IntRect) × (enlarge_and_latch r m ≡ ok l) × IsLatched m r l
enlarge_and_latch-IsLatched r m q h d v =
    (latched m r, enlarge_and_latch-latched r m q h d v, latched-IsLatched m r h)

-- A latched rectangle covers the given one.
pub IsLatched-Within : (m : ℕ) (r l : IntRect) → IsLatched m r l → Within r l
IsLatched-Within m r l v p c = omega (int_laws, v.left, v.top, v.right, v.bottom)
