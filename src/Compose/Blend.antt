-- ===== src/Compose/Blend.antt =====
-- `CopyAt` puts the source's pixels over the destination's, and changes no other pixel.
use czi_pyramidizer.Prelude.{
  ℕ, ◌+◌, ◌-◌, ◌*◌, ◌≤◌, ◌<◌, ◌≡◌, refl, arith, ◌⊎◌, inl, inr, true, false, ◌&&◌, if◌then◌else◌,
  Bool-cases,
}
use czi_pyramidizer.Prelude.Int.{ℤ, pos, int_laws}
use czi_pyramidizer.Prelude.Words.{int_limit, to_size, to_size-pos}
use czi_pyramidizer.Prelude.Outcome.{ok}
use czi_pyramidizer.Rect.{IntRect, RectOps, Point, Contains}
use czi_pyramidizer.Bitmap.{PixelType, Memory, Bitmap}
use czi_pyramidizer.Bitmap.Layout.{IsCopied, copy_lines-IsCopied, LinesFit-rows}
use czi_pyramidizer.TileHelper.Hull.{no-pixels}
use czi_pyramidizer.Compose.{narrow_int, copy_at, copy_intersection}
use czi_pyramidizer.Compose.Overlap.{
  intersect-IsMeet, covers, source_position, IsOverlap, overlap, covered_in, covered_out,
  covers-true,
}
use czi_pyramidizer.Compose.CopyAt.{block_pixel, block_around}

-- Pixels of k bytes, in lines that do not overlap and lie in the allocation.
pub record IsLaidOut (k : ℕ) (b : Bitmap) : Type 0 where
  pub lines : b.width * k ≤ b.stride
  pub rows : b.stride * b.height ≤ b.size
  pub width_int : b.width < int_limit
  pub height_int : b.height < int_limit

-- Where byte c of pixel (x, y) is.
abbrev pub pixel_offset : ℕ → Bitmap → ℕ → ℕ → ℕ → ℕ
pixel_offset k b x y c = y * b.stride + (x * k + c)

-- Byte c of pixel (x, y) with the source laid over the destination: the source's where it covers
-- the pixel, else the destination's.
abbrev pub blended : ℕ → Bitmap → Bitmap → ℤ → ℤ → ℕ → ℕ → ℕ → ℕ
blended k destination source x_offset y_offset x y c =
    if covers x_offset source.width x && covers y_offset source.height y
    then source.memory
        (pixel_offset k source (source_position x_offset x) (source_position y_offset y) c)
    else destination.memory (pixel_offset k destination x y c)

-- A narrower line fits too.
mul_le : (a b k c : ℕ) → a ≤ b → b * k ≤ c → a * k ≤ c
mul_le a b k c h f = grind arith

pub narrow_int-ok : (n : ℕ) → n < int_limit → narrow_int n ≡ ok (pos n)
unfolding narrow_int
narrow_int-ok n h = ground arith

module _ (ops : RectOps) (get_bytes_per_pixel : PixelType → ℕ) (dest source : Bitmap) (xo yo : ℤ)
    (laid : IsLaidOut (get_bytes_per_pixel source.pixel_type) dest)
    (source_laid : IsLaidOut (get_bytes_per_pixel source.pixel_type) source) where
  abbrev k : ℕ
  k = get_bytes_per_pixel source.pixel_type

  module _ {i : IntRect} {X U W Y V H : ℕ} (ox : IsOverlap xo source.width dest.width i.x i.w X U W)
      (oy : IsOverlap yo source.height dest.height i.y i.h Y V H) where
    block_fits : (X + W) * k ≤ dest.stride
    block_fits = mul_le (X + W) dest.width k dest.stride ox.in_extent laid.lines

    source_fits : (U + W) * k ≤ source.stride
    source_fits = mul_le (U + W) source.width k source.stride ox.in_source source_laid.lines

    copy_intersection_lem :
        (m : Memory) × (copy_intersection ops get_bytes_per_pixel dest source xo yo i
          ≡ ok (record dest { memory = m }))
        × IsCopied H dest.memory
            (Y * dest.stride + X * k)
            dest.stride
            source.memory
            (V * source.stride + U * k)
            source.stride
            (k * W)
            m
    unfolding copy_intersection
    copy_intersection_lem =
        let (m, e, copied) =
          copy_lines-IsCopied dest.size dest.stride source.memory source.size source.stride (k * W)
            (omega (arith, block_fits)) H dest.memory (Y * dest.stride + X * k)
            (V * source.stride + U * k)
            (LinesFit-rows H Y dest.height (X * k) (k * W) dest.stride dest.size oy.in_extent
              (omega (arith, block_fits)) laid.rows)
            (LinesFit-rows H V source.height (U * k) (k * W) source.stride source.size oy.in_source
              (omega (arith, source_fits)) source_laid.rows) in
        (
          m,
          simp
              (
                ox.start_is, ox.count_is, ox.skip_is, oy.start_is, oy.count_is, oy.skip_is, at_x,
                at_u, at_w, at_y, at_v,
              )
              (rw e refl),
          copied,
        )
      where
        at_x : to_size (pos X) ≡ X
        at_x = to_size-pos X (omega (arith, ox.in_extent, laid.width_int))

        at_u : to_size (pos U) ≡ U
        at_u = to_size-pos U (omega (arith, ox.in_source, source_laid.width_int))

        at_w : to_size (pos W) ≡ W
        at_w = to_size-pos W (omega (arith, ox.in_extent, laid.width_int))

        at_y : to_size (pos Y) ≡ Y
        at_y = to_size-pos Y (omega (arith, oy.in_extent, laid.height_int))

        at_v : to_size (pos V) ≡ V
        at_v = to_size-pos V (omega (arith, oy.in_source, source_laid.height_int))

    copied-blended :
        (m : Memory) (x y c : ℕ)
        → IsCopied H dest.memory
            (Y * dest.stride + X * k)
            dest.stride
            source.memory
            (V * source.stride + U * k)
            source.stride
            (k * W)
            m
        → x < dest.width
        → y < dest.height
        → c < k
        → m (pixel_offset k dest x y c) ≡ blended k dest source xo yo x y c
    copied-blended m x y c block hx hy hc = elim (Bool-cases (covers xo source.width x)) [
      | inl cx ↦ elim (Bool-cases (covers yo source.height y)) [
        | inl cy ↦ rw (cx, cy) (both (covered_in ox x hx cx) (covered_in oy y hy cy))
        | inr cy ↦ rw (cx, cy) (around (inr (covered_out oy y hy cy)))
      ]
      | inr cx ↦ rw cx (around (inl (covered_out ox x hx cx)))
    ]
      where
        both :
            (X ≤ x) × (x < X + W) × (source_position xo x ≡ U + (x - X))
            → (Y ≤ y) × (y < Y + H) × (source_position yo y ≡ V + (y - Y))
            → m (pixel_offset k dest x y c)
              ≡ source.memory
                  (pixel_offset k source (source_position xo x) (source_position yo y) c)
        both (lx, hx', ex) (ly, hy', ey) =
            rw (ex, ey)
              (block_pixel k dest.stride source.stride X Y W H U V dest.memory source.memory m block
                block_fits x y c lx hx' ly hy' hc)

        around :
            ((x < X) ⊎ (X + W ≤ x)) ⊎ ((y < Y) ⊎ (Y + H ≤ y))
            → m (pixel_offset k dest x y c) ≡ dest.memory (pixel_offset k dest x y c)
        around =
            block_around k dest.stride source.stride X Y W H U V dest.memory source.memory m block
              block_fits x y c dest.width hx hc laid.lines

  abbrev source_roi : IntRect
  source_roi = record { x = xo; y = yo; w = pos source.width; h = pos source.height }

  abbrev destination_roi : IntRect
  destination_roi = record { x = pos 0; y = pos 0; w = pos dest.width; h = pos dest.height }

  -- Without common pixels the source covers no pixel.
  nothing-blended :
      (x y c : ℕ)
      → ops.is_non_empty (ops.intersect source_roi destination_roi) ≡ false
      → x < dest.width
      → y < dest.height
      → dest.memory (pixel_offset k dest x y c) ≡ blended k dest source xo yo x y c
  nothing-blended x y c e hx hy = elim (Bool-cases (covers xo source.width x)) [
    | inl cx ↦ elim (Bool-cases (covers yo source.height y)) [
      | inl cy ↦ absurd (
          no-pixels ops (ops.intersect source_roi destination_roi) e at
            ((ops.intersect_iff source_roi destination_roi at).1 (there cx cy, omega int_laws)))
      | inr cy ↦ rw (cx, cy)
    ]
    | inr cx ↦ rw cx
  ]
    where
      at : Point
      at = record { px = pos x; py = pos y }

      there :
          covers xo source.width x ≡ true
          → covers yo source.height y ≡ true
          → Contains source_roi at
      there cx cy =
          let a = covers-true xo source.width x cx in
          let b = covers-true yo source.height y cy in omega int_laws

  -- With extents that fit an `int`, the narrowing never throws.
  copy_at_lem : copy_at ops get_bytes_per_pixel dest source xo yo ≡ (
      if ops.is_non_empty (ops.intersect source_roi destination_roi)
      then copy_intersection ops get_bytes_per_pixel dest source xo yo
          (ops.intersect source_roi destination_roi)
      else ok dest)
  unfolding copy_at
  copy_at_lem = rw (
    narrow_int-ok source.width source_laid.width_int,
    narrow_int-ok source.height source_laid.height_int,
    narrow_int-ok dest.width laid.width_int,
    narrow_int-ok dest.height laid.height_int,
  )

  something-blended :
      (x y c : ℕ)
      → ops.is_non_empty (ops.intersect source_roi destination_roi) ≡ true
      → x < dest.width
      → y < dest.height
      → c < k
      → (m : Memory) × (copy_intersection ops get_bytes_per_pixel dest source xo yo
            (ops.intersect source_roi destination_roi)
          ≡ ok (record dest { memory = m }))
        × (m (pixel_offset k dest x y c) ≡ blended k dest source xo yo x y c)
  something-blended x y c e hx hy hc =
      let common = ops.intersect source_roi destination_roi in
      let non_empty = (ops.is_non_empty_iff common).0 e in
      let meet =
        intersect-IsMeet source_roi destination_roi common non_empty
          (ops.intersect_iff source_roi destination_roi) in
      let ox =
        overlap xo source.width dest.width common.x common.w non_empty.0 meet.left meet.right in
      let oy =
        overlap yo source.height dest.height common.y common.h non_empty.1 meet.top meet.bottom in
      let (m, returns, copied) = copy_intersection_lem ox oy in
      (m, returns, copied-blended ox oy m x y c copied hx hy hc)

  -- `copy_at` returns, and each byte of each pixel of the result is the source's byte where the
  -- source, laid at the offset, covers the pixel, else the destination's. No access is out of
  -- bounds, for any offset.
  pub copy_at-blended :
      (x y c : ℕ)
      → x < dest.width
      → y < dest.height
      → c < k
      → (m : Memory) × (copy_at ops get_bytes_per_pixel dest source xo yo
          ≡ ok (record dest { memory = m }))
        × (m (pixel_offset k dest x y c) ≡ blended k dest source xo yo x y c)
  copy_at-blended x y c hx hy hc =
      elim (Bool-cases (ops.is_non_empty (ops.intersect source_roi destination_roi))) [
        | inl e ↦
            let (m, returns, pixel) = something-blended x y c e hx hy hc in
            (m, rw (copy_at_lem, e) returns, pixel)
        | inr e ↦ (dest.memory, rw (copy_at_lem, e), nothing-blended x y c e hx hy)
      ]
