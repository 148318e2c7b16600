-- ===== src/Compose/Layered.antt =====
-- What `Compose` puts together: the bitmaps over the background, a later one over an earlier one.
use czi_pyramidizer.Prelude.{
  ℕ, ◌+◌, ◌*◌, ◌<◌, ◌≡◌, refl, ◌∙◌, ap, sym, subst, arith, false, List, [], ◌∷◌, length, ◌&&◌,
  if◌then◌else◌,
}
use czi_pyramidizer.Prelude.Int.{ℤ, pos}
use czi_pyramidizer.Prelude.Words.{int_limit, u32_mod, to_u32-pos}
use czi_pyramidizer.Prelude.Outcome.{ok, ok-injective}
use czi_pyramidizer.Rect.{IntRect, RectOps}
use czi_pyramidizer.Imaging.{Placement}
use czi_pyramidizer.Bitmap.{
  PixelType, Memory, Bitmap, bytes_per_pel, line_stride, create_bitmap, create_bitmap_data,
}
use czi_pyramidizer.Bitmap.Create.{line_stride-enough}
use czi_pyramidizer.Compose.{FloatOps, RgbFloatColor, pixel_of, byte_at, copy_at, copy_all, compose}
use czi_pyramidizer.Compose.Overlap.{covers, source_position}
use czi_pyramidizer.Compose.Blend.{IsLaidOut, pixel_offset, blended, copy_at-blended}
use czi_pyramidizer.Compose.Fill.{fill-filled}

-- Byte c of pixel (x, y) of the bitmaps laid over a value, one after the other.
abbrev pub layered : ℕ → List (Placement Bitmap) → ℕ → ℕ → ℕ → ℕ → ℕ
layered k [] x y c value = value
layered k (p ∷ placements) x y c value = layered k placements x y c (
    if covers p.x p.bitmap.width x && covers p.y p.bitmap.height y
    then p.bitmap.memory (pixel_offset k p.bitmap (source_position p.x x) (source_position p.y y) c)
    else value)

module _ (ops : RectOps) (get_bytes_per_pixel : PixelType → ℕ) (k : ℕ) where
  -- Bitmaps of pixels of k bytes, laid out in their memory.
  abbrev pub AllLaidOut : List (Placement Bitmap) → Type 0
  AllLaidOut [] = Unit
  AllLaidOut (p ∷ placements) =
      ((get_bytes_per_pixel p.bitmap.pixel_type ≡ k) × IsLaidOut k p.bitmap) × AllLaidOut placements

  copy_at_pixel :
      (dest source : Bitmap) (xo yo : ℤ) (x y c : ℕ)
      → get_bytes_per_pixel source.pixel_type ≡ k
      → IsLaidOut k dest
      → IsLaidOut k source
      → x < dest.width
      → y < dest.height
      → c < k
      → (m : Memory) × (copy_at ops get_bytes_per_pixel dest source xo yo
          ≡ ok (record dest { memory = m }))
        × (m (pixel_offset k dest x y c) ≡ blended k dest source xo yo x y c)
  copy_at_pixel dest source xo yo x y c e laid source_laid hx hy hc =
      subst
        (λ n.
          (m : Memory) × (copy_at ops get_bytes_per_pixel dest source xo yo
            ≡ ok (record dest { memory = m }))
          × (m (pixel_offset n dest x y c) ≡ blended n dest source xo yo x y c))
        e
        (copy_at-blended ops get_bytes_per_pixel dest source xo yo
          (subst (λ n. IsLaidOut n dest) (sym e) laid)
          (subst (λ n. IsLaidOut n source) (sym e) source_laid) x y c hx hy
          (subst (λ n. c < n) (sym e) hc))

  laid_again :
      (dest : Bitmap) (m : Memory) → IsLaidOut k dest → IsLaidOut k (record dest { memory = m })
  laid_again dest m laid = record {
    lines = laid.lines;
    rows = laid.rows;
    width_int = laid.width_int;
    height_int = laid.height_int;
  }

  copy_all-layered :
      (placements : List (Placement Bitmap)) (dest : Bitmap) (x y c : ℕ)
      → AllLaidOut placements
      → IsLaidOut k dest
      → x < dest.width
      → y < dest.height
      → c < k
      → (m : Memory) × (copy_all ops get_bytes_per_pixel placements dest
          ≡ ok (record dest { memory = m }))
        × (m (pixel_offset k dest x y c)
            ≡ layered k placements x y c (dest.memory (pixel_offset k dest x y c)))
  unfolding copy_all
  copy_all-layered [] dest x y c all laid hx hy hc = (dest.memory, refl, refl)
  copy_all-layered (p ∷ placements) dest x y c ((e, p_laid), all) laid hx hy hc =
      let (m, em, pixel) = copy_at_pixel dest p.bitmap p.x p.y x y c e laid p_laid hx hy hc in
      let (m', em', pixel') =
        copy_all-layered placements (record dest { memory = m }) x y c all (laid_again dest m laid)
          hx hy hc in
      (m', rw (copy_all, em) em', pixel' ∙ ap (λ v. layered k placements x y c v) pixel)

-- A pixel type that can be filled has pixels of the size that the bitmap's constructor uses.
pixel_of-length :
    (floats : FloatOps) (t : PixelType) (color : RgbFloatColor floats) (pixel : List ℕ)
    → pixel_of floats t color ≡ ok pixel
    → bytes_per_pel t ≡ ok (length pixel)
unfolding pixel_of bytes_per_pel
pixel_of-length floats PixelType.gray8 color pixel e = ap (λ p. ok (length p)) (ok-injective e)
pixel_of-length floats PixelType.gray16 color pixel e = ap (λ p. ok (length p)) (ok-injective e)
pixel_of-length floats PixelType.gray32_float color pixel e =
    ap (λ p. ok (length p)) (ok-injective e)
pixel_of-length floats PixelType.bgr24 color pixel e = ap (λ p. ok (length p)) (ok-injective e)
pixel_of-length floats PixelType.bgr48 color pixel e = ap (λ p. ok (length p)) (ok-injective e)
pixel_of-length floats PixelType.gray32 color pixel e = cc
pixel_of-length floats PixelType.bgra32 color pixel e = cc
pixel_of-length floats PixelType.other color pixel e = cc

abbrev pub blank_bitmap : Memory → PixelType → ℕ → ℕ → ℕ → Bitmap
blank_bitmap memory t k width height = record {
  pixel_type = t;
  width = width;
  height = height;
  stride = line_stride t width k;
  size = line_stride t width k * height;
  memory = memory;
}

pub create_bitmap_data_lem :
    (uninitialized : Memory) (t : PixelType) (k width height : ℕ)
    → bytes_per_pel t ≡ ok k
    → create_bitmap_data uninitialized t width height
      ≡ ok (blank_bitmap uninitialized t k width height)
unfolding create_bitmap_data create_bitmap
create_bitmap_data_lem uninitialized t k width height e = rw (create_bitmap_data, create_bitmap, e)

pub blank-IsLaidOut :
    (memory : Memory) (t : PixelType) (k width height : ℕ)
    → width * k + 3 < u32_mod
    → width < int_limit
    → height < int_limit
    → IsLaidOut k (blank_bitmap memory t k width height)
blank-IsLaidOut memory t k width height h w v = record {
  lines = line_stride-enough t width k h;
  rows = omega arith;
  width_int = w;
  height_int = v;
}

module _ (ops : RectOps) (get_bytes_per_pixel : PixelType → ℕ) (floats : FloatOps)
    (uninitialized : Memory) (t : PixelType) (color : RgbFloatColor floats) (pixel : List ℕ)
    (left top : ℤ) (width height : ℕ) (placements : List (Placement Bitmap)) where
  abbrev roi : IntRect
  roi = record { x = left; y = top; w = pos width; h = pos height }

  abbrev composed : Memory → Bitmap
  composed m = blank_bitmap m t (length pixel) width height

  -- Composing for a rectangle returns a bitmap of the pixel type and of its extents, in which each
  -- byte of each pixel is that of the last bitmap which covers the pixel, else that of the
  -- background. The colour's components are numbers, its pixel is that of the type, a line's size
  -- does not wrap, and the bitmaps have pixels of the same size.
  pub compose-layered :
      (x y c : ℕ)
      → floats.is_nan color.r ≡ false
      → floats.is_nan color.g ≡ false
      → floats.is_nan color.b ≡ false
      → pixel_of floats t color ≡ ok pixel
      → width * length pixel + 3 < u32_mod
      → width < int_limit
      → height < int_limit
      → AllLaidOut ops get_bytes_per_pixel (length pixel) placements
      → x < width
      → y < height
      → c < length pixel
      → (m : Memory) × (compose ops get_bytes_per_pixel floats uninitialized roi t color placements
          ≡ ok (composed m))
        × (m (pixel_offset (length pixel) (composed m) x y c)
            ≡ layered (length pixel) placements x y c (byte_at floats pixel c))
  unfolding compose
  compose-layered x y c nr ng nb e narrow hw hh all hx hy hc =
      let k : ℕ = length pixel in
      let laid = blank-IsLaidOut uninitialized t k width height narrow hw hh in
      let (filled, ef, background) =
        fill-filled floats (composed uninitialized) color pixel e laid in
      let (m, em, pixel_is) =
        copy_all-layered ops get_bytes_per_pixel k placements (composed filled) x y c all
          (blank-IsLaidOut filled t k width height narrow hw hh) hx hy hc in
      let created =
        create_bitmap_data_lem uninitialized t k width height
          (pixel_of-length floats t color pixel e) in
      (
        m,
        rw
            (
              compose,
              to_u32-pos width (omega arith),
              to_u32-pos height (omega arith),
              created,
              nr,
              ng,
              nb,
              ef,
            )
            em,
        pixel_is ∙ ap (λ v. layered k placements x y c v) (background x y c hx hy hc),
      )
