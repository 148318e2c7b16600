-- ===== src/Rect.antt =====
-- Rectangles of pixels: libCZI's plain struct `IntRect`, by the four fields that the source builds
-- and reads, and the interface to those of its methods that the source calls.
use czi_pyramidizer.Prelude.{◌≡◌, ◌↔◌, Bool, true, false}
use czi_pyramidizer.Prelude.Int.{ℤ, pos, ◌+ℤ◌, ◌≤ℤ◌, ◌<ℤ◌}

pub record IntRect : Type 0 where
  pub x : ℤ
  pub y : ℤ
  pub w : ℤ
  pub h : ℤ

pub record Point : Type 0 where
  pub px : ℤ
  pub py : ℤ

-- The pixels of a rectangle: the left and the top edge belong to it, the right and the bottom do not.
abbrev pub Contains : IntRect → Point → Type 0
Contains r p = (r.x ≤ℤ p.px) × (p.px <ℤ r.x +ℤ r.w) × (r.y ≤ℤ p.py) × (p.py <ℤ r.y +ℤ r.h)

-- Every pixel of the first lies in the second.
abbrev pub Within : IntRect → IntRect → Type 0
Within r s = (p : Point) → Contains r p → Contains s p

abbrev pub IsNonEmpty : IntRect → Type 0
IsNonEmpty r = (pos 0 <ℤ r.w) × (pos 0 <ℤ r.h)

-- What the source relies on of libCZI's `IntRect`: `IsNonEmpty` tests that both extents are
-- positive, `Intersect` gives the common pixels, and `Invalidate` leaves no pixels.
pub record RectOps : Type 0 where
  pub is_non_empty : IntRect → Bool
  pub intersect : IntRect → IntRect → IntRect
  pub invalid : IntRect
  pub is_non_empty_iff : (r : IntRect) → (is_non_empty r ≡ true) ↔ IsNonEmpty r
  pub intersect_iff :
      (r s : IntRect) (p : Point) → Contains (intersect r s) p ↔ (Contains r p × Contains s p)
  pub invalid_empty : is_non_empty invalid ≡ false
