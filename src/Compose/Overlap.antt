-- ===== src/Compose/Overlap.antt =====
-- The edges of an intersection, and the numbers that `CopyAt` computes from them.
use czi_pyramidizer.Prelude.{
  false, true, ◌&&◌, not, ◌⊎◌, Bool, ℕ, ◌+◌, ◌-◌, ◌≤◌, ◌<◌, ◌≡◌, arith, ap, ◌↔◌,
}
use czi_pyramidizer.Prelude.Int.{
  ltb_ℤ, ℤ, pos, pos_part, neg_part, ◌+ℤ◌, ◌-ℤ◌, ◌≤ℤ◌, ◌<ℤ◌, min_ℤ, max_ℤ, int_laws, parts_apart,
  pos_of_nonneg,
}
use czi_pyramidizer.Rect.{IntRect, Point, Contains, IsNonEmpty}

-- A rectangle that has pixels, and those common to two others, has their inner edges.
pub record IsMeet (r s i : IntRect) : Type 0 where
  pub left : i.x ≡ max_ℤ r.x s.x
  pub top : i.y ≡ max_ℤ r.y s.y
  pub right : i.x +ℤ i.w ≡ min_ℤ (r.x +ℤ r.w) (s.x +ℤ s.w)
  pub bottom : i.y +ℤ i.h ≡ min_ℤ (r.y +ℤ r.h) (s.y +ℤ s.h)

pub intersect-IsMeet :
    (r s i : IntRect)
    → IsNonEmpty i
    → ((p : Point) → Contains i p ↔ (Contains r p × Contains s p))
    → IsMeet r s i
intersect-IsMeet r s i (pw, ph) common = record {
  left = omega (int_laws, corner, (common left_end).1);
  top = omega (int_laws, corner, (common top_end).1);
  right = omega (int_laws, corner, (common last).0 last_there, (common right_end).1);
  bottom = omega (int_laws, corner, (common last).0 last_there, (common bottom_end).1);
}
  where
    corner : Contains r (record { px = i.x; py = i.y }) × Contains s (record { px = i.x; py = i.y })
    corner = (common (record { px = i.x; py = i.y })).0 (omega int_laws)

    last : Point
    last = record { px = i.x +ℤ i.w -ℤ pos 1; py = i.y +ℤ i.h -ℤ pos 1 }

    last_there : Contains i last
    last_there = omega int_laws

    left_end : Point
    left_end = record { px = max_ℤ r.x s.x; py = i.y }

    top_end : Point
    top_end = record { px = i.x; py = max_ℤ r.y s.y }

    right_end : Point
    right_end = record { px = min_ℤ (r.x +ℤ r.w) (s.x +ℤ s.w) -ℤ pos 1; py = i.y }

    bottom_end : Point
    bottom_end = record { px = i.x; py = min_ℤ (r.y +ℤ r.h) (s.y +ℤ s.h) -ℤ pos 1 }

-- A pixel's position, seen along one axis, is one that the source at the offset covers.
abbrev pub covers : ℤ → ℕ → ℕ → Bool
covers offset extent x = not (ltb_ℤ (pos x) offset) && ltb_ℤ (pos x) (offset +ℤ pos extent)

pub covers-true :
    (offset : ℤ) (extent x : ℕ)
    → covers offset extent x ≡ true
    → (offset ≤ℤ pos x) × (pos x <ℤ offset +ℤ pos extent)
covers-true offset extent x h = ground arith

covers-false :
    (offset : ℤ) (extent x : ℕ)
    → covers offset extent x ≡ false
    → (pos x <ℤ offset) ⊎ (offset +ℤ pos extent ≤ℤ pos x)
covers-false offset extent x h = ground arith

-- The position in the source.
abbrev pub source_position : ℤ → ℕ → ℕ
source_position offset x = pos_part (pos x -ℤ offset)

-- Along one axis: the overlap begins at `start` in the destination and at `skip` in the source.
pub record IsOverlap (offset : ℤ) (source_extent extent : ℕ) (x w : ℤ) (start skip count : ℕ)
    : Type 0 where
  pub start_is : x ≡ pos start
  pub count_is : w ≡ pos count
  pub skip_is : max_ℤ (pos 0 -ℤ offset) (pos 0) ≡ pos skip
  pub in_extent : start + count ≤ extent
  pub in_source : skip + count ≤ source_extent
  pub shifted : pos start ≡ offset +ℤ pos skip
  pub begins : (start ≡ 0) ⊎ (skip ≡ 0)
  pub ends : (start + count ≡ extent) ⊎ (skip + count ≡ source_extent)

pub overlap :
    (offset : ℤ) (source_extent extent : ℕ) (x w : ℤ)
    → pos 0 <ℤ w
    → x ≡ max_ℤ offset (pos 0)
    → x +ℤ w ≡ min_ℤ (offset +ℤ pos source_extent) (pos 0 +ℤ pos extent)
    → IsOverlap offset source_extent extent x w
        (pos_part x)
        (pos_part (max_ℤ (pos 0 -ℤ offset) (pos 0)))
        (pos_part w)
overlap offset sw dw x w h e f =
    let e_pos = ap pos_part e in
    let e_neg = ap neg_part e in
    let f_pos = ap pos_part f in
    let f_neg = ap neg_part f in
    let x_apart = parts_apart x in
    let w_apart = parts_apart w in
    let skip_apart = parts_apart (max_ℤ (pos 0 -ℤ offset) (pos 0)) in
    record {
      start_is = pos_of_nonneg x (omega int_laws);
      count_is = pos_of_nonneg w (omega int_laws);
      skip_is = pos_of_nonneg _ (omega int_laws);
      in_extent = omega int_laws;
      in_source = omega int_laws;
      shifted = omega int_laws;
      begins = omega int_laws;
      ends = omega int_laws;
    }

-- The pixels that the source covers are those of the overlap.
module _ {offset x w : ℤ} {source_extent extent start skip count : ℕ}
    (o : IsOverlap offset source_extent extent x w start skip count) where
  pub covered_in :
      (p : ℕ)
      → p < extent
      → covers offset source_extent p ≡ true
      → (start ≤ p) × (p < start + count) × (source_position offset p ≡ skip + (p - start))
  covered_in p h c =
      let at = covers-true offset source_extent p c in
      let s_pos = ap pos_part o.shifted in
      let s_neg = ap neg_part o.shifted in
      let apart = parts_apart (pos p -ℤ offset) in (omega int_laws, omega int_laws, omega int_laws)

  pub covered_out :
      (p : ℕ)
      → p < extent
      → covers offset source_extent p ≡ false
      → (p < start) ⊎ (start + count ≤ p)
  covered_out p h c =
      let at = covers-false offset source_extent p c in
      let s_pos = ap pos_part o.shifted in let s_neg = ap neg_part o.shifted in omega int_laws
