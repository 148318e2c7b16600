-- ===== src/Compose/Fill.antt =====
-- `Fill` puts the colour's bytes into every pixel.
use czi_pyramidizer.Prelude.{
  ℕ, zero, suc, ◌+◌, ◌*◌, ◌≤◌, ◌<◌, ◌≡◌, refl, ◌∙◌, ap, arith, List, length,
}
use czi_pyramidizer.Prelude.Outcome.{ok}
use czi_pyramidizer.Bitmap.{Memory, Bitmap}
use czi_pyramidizer.Bitmap.Layout.{LinesFit, copy_lines-IsCopied}
use czi_pyramidizer.Compose.{
  FloatOps, RgbFloatColor, pixel_of, byte_at, fill_line, fill_lines, fill,
}
use czi_pyramidizer.Compose.Blend.{IsLaidOut, pixel_offset}

-- The one pixel that is read from lies in its bytes, each time.
source_fits : (count n : ℕ) → LinesFit count n 0 0 n
source_fits zero n = tt
source_fits (suc count) n = (omega arith, source_fits count n)

pixels_fit : (count size offset n : ℕ) → offset + count * n ≤ size → LinesFit count size offset n n
pixels_fit zero size offset n h = tt
pixels_fit (suc count) size offset n h =
    (omega arith, pixels_fit count size (offset + n) n (omega arith))

module _ (floats : FloatOps) (pixel : List ℕ) where
  abbrev k : ℕ
  k = length pixel

  -- A filled line.
  record IsLine (memory : Memory) (offset width : ℕ) (filled : Memory) : Type 0 where
    inside : (x c : ℕ) → x < width → c < k → filled (offset + (x * k + c)) ≡ byte_at floats pixel c
    before : (a : ℕ) → a < offset → filled a ≡ memory a
    after : (a : ℕ) → offset + width * k ≤ a → filled a ≡ memory a

  fill_line-IsLine :
      (memory : Memory) (size offset width : ℕ)
      → offset + width * k ≤ size
      → (filled : Memory) × (fill_line floats memory size offset width pixel ≡ ok filled)
        × IsLine memory offset width filled
  unfolding fill_line
  fill_line-IsLine memory size offset width h =
      let (m, e, c) =
        copy_lines-IsCopied size k (byte_at floats pixel) k 0 k (omega arith) width memory offset 0
          (pixels_fit width size offset k h) (source_fits width k) in
      (
        m,
        e,
        record {
          inside = λ x b hx hb.
              ap m (omega arith) ∙ c.inside x b hx hb ∙ ap (byte_at floats pixel) (omega arith);
          before = c.before;
          after = c.after;
        },
      )

  record AreLines (count : ℕ) (offset stride width : ℕ) (memory filled : Memory) : Type 0 where
    inside :
        (y x c : ℕ)
        → y < count
        → x < width
        → c < k
        → filled (offset + (y * stride + (x * k + c))) ≡ byte_at floats pixel c
    before : (a : ℕ) → a < offset → filled a ≡ memory a

  pixel_in_line :
      (x width c stride : ℕ) → x < width → c < k → width * k ≤ stride → x * k + c < stride
  pixel_in_line x width c stride hx hc h = grind arith

  fill_lines-AreLines :
      (count : ℕ) (memory : Memory) (size offset stride width : ℕ)
      → width * k ≤ stride
      → offset + count * stride ≤ size
      → (filled : Memory) × (fill_lines floats count memory size offset stride width pixel
          ≡ ok filled)
        × AreLines count offset stride width memory filled
  unfolding fill_lines
  fill_lines-AreLines zero memory size offset stride width h f =
      (memory, refl, record { inside = λ y x c hy. absurd (omega arith); before = λ a _. refl })
  fill_lines-AreLines (suc count) memory size offset stride width h f =
      let (line, el, l) = fill_line-IsLine memory size offset width (omega arith) in
      let (filled, ef, r) =
        fill_lines-AreLines count line size (offset + stride) stride width h (omega arith) in
      (
        filled,
        rw el ef,
        record {
          inside = all_inside line filled l r;
          before = λ a ha. r.before a (omega arith) ∙ l.before a ha;
        },
      )
    where
      all_inside :
          (line filled : Memory)
          → IsLine memory offset width line
          → AreLines count (offset + stride) stride width line filled
          → (y x c : ℕ) → y < suc count
          → x < width
          → c < k
          → filled (offset + (y * stride + (x * k + c))) ≡ byte_at floats pixel c
      all_inside line filled l r zero x c hy hx hc =
          let inside = pixel_in_line x width c stride hx hc h in
          ap filled (omega arith)
          ∙ r.before (offset + (x * k + c)) (omega arith)
          ∙ l.inside x c hx hc
      all_inside line filled l r (suc y) x c hy hx hc =
          ap filled (omega arith) ∙ r.inside y x c (omega arith) hx hc

-- Filling a laid out bitmap returns it with each byte of each pixel that of the colour's pixel.
pub fill-filled :
    (floats : FloatOps) (bitmap : Bitmap) (color : RgbFloatColor floats) (pixel : List ℕ)
    → pixel_of floats bitmap.pixel_type color ≡ ok pixel
    → IsLaidOut (length pixel) bitmap
    → (memory : Memory) × (fill floats bitmap color ≡ ok (record bitmap { memory = memory }))
      × ((x y c : ℕ)
          → x < bitmap.width
          → y < bitmap.height
          → c < length pixel
          → memory (pixel_offset (length pixel) bitmap x y c) ≡ byte_at floats pixel c)
unfolding fill
fill-filled floats bitmap color pixel e laid =
    let (memory, ef, lines) =
      fill_lines-AreLines floats pixel bitmap.height bitmap.memory bitmap.size 0 bitmap.stride
        bitmap.width laid.lines (omega (arith, laid.rows)) in
    (
      memory,
      rw (fill, e, ef),
      λ x y c hx hy hc. ap memory (omega arith) ∙ lines.inside y x c hy hx hc,
    )
