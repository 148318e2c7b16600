-- ===== src/Tests/Ops.antt =====
-- A concrete `IntRect`: the interface to its methods can be met.
use czi_pyramidizer.Prelude.{◌≡◌, refl, ◌↔◌, Bool, true, false, ◌&&◌, arith}
use czi_pyramidizer.Prelude.Int.{ℤ, pos, negsuc, ◌+ℤ◌, ◌-ℤ◌, min_ℤ, max_ℤ, ltb_ℤ, int_laws}
use czi_pyramidizer.Rect.{IntRect, Point, Contains, IsNonEmpty, RectOps}

abbrev pub rect : ℤ → ℤ → ℤ → ℤ → IntRect
rect x y w h = record { x = x; y = y; w = w; h = h }

pub is_non_empty : IntRect → Bool
is_non_empty r = ltb_ℤ (pos 0) r.w && ltb_ℤ (pos 0) r.h

pub is_non_empty_iff : (r : IntRect) → (is_non_empty r ≡ true) ↔ IsNonEmpty r
unfolding is_non_empty
is_non_empty_iff r = (λ h. ground arith, λ h. ground arith)

pub intersect : IntRect → IntRect → IntRect
intersect r s = record {
  x = max_ℤ r.x s.x;
  y = max_ℤ r.y s.y;
  w = min_ℤ (r.x +ℤ r.w) (s.x +ℤ s.w) -ℤ max_ℤ r.x s.x;
  h = min_ℤ (r.y +ℤ r.h) (s.y +ℤ s.h) -ℤ max_ℤ r.y s.y;
}

pub intersect_iff :
    (r s : IntRect) (p : Point) → Contains (intersect r s) p ↔ (Contains r p × Contains s p)
unfolding intersect
intersect_iff r s p = (λ h. omega int_laws, λ h. omega int_laws)

abbrev invalid : IntRect
invalid = rect (pos 0) (pos 0) (negsuc 0) (negsuc 0)

pub invalid_empty : is_non_empty invalid ≡ false
unfolding is_non_empty
invalid_empty = refl

unfoldable pub concrete_ops : RectOps
unfolding is_non_empty intersect
concrete_ops = record {
  is_non_empty = is_non_empty;
  intersect = intersect;
  invalid = invalid;
  is_non_empty_iff = is_non_empty_iff;
  intersect_iff = intersect_iff;
  invalid_empty = invalid_empty;
}
