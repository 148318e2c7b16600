-- ===== src/Compose.antt =====
-- libpyramidizer/src/imaging/compose.cpp: a bitmap put together from other bitmaps. libCZI's
-- `Utils::GetBytesPerPixel` and the methods of its `IntRect` are parameters, and so are the
-- floating-point numbers of a colour.
pub mod Overlap
pub mod CopyAt
pub mod Blend
pub mod Fill
pub mod Layered
use czi_pyramidizer.Prelude.{
  ℕ, zero, suc, ◌+◌, ◌*◌, ◌/◌, ◌%◌, List, [], ◌∷◌, Option, none, some, Bool, not, ◌&&◌, ltb, length,
  if◌then◌else◌,
}
use czi_pyramidizer.Prelude.Int.{ℤ, pos, pos_part, ◌-ℤ◌, max_ℤ}
use czi_pyramidizer.Prelude.Words.{int_limit, to_size, to_u32}
use czi_pyramidizer.Prelude.Outcome.{Outcome, ok, err, narrowing_error, runtime_error, ◌>>=◌}
use czi_pyramidizer.Rect.{IntRect, RectOps}
use czi_pyramidizer.Imaging.{Placement}
use czi_pyramidizer.Bitmap.{PixelType, Memory, Bitmap, copy_lines, create_bitmap_data}

-- `gsl::narrow<int>` of a `std::uint32_t`.
unfoldable pub narrow_int : ℕ → Outcome ℤ
narrow_int n = if ltb n int_limit then ok (pos n) else err narrowing_error

module _ (ops : RectOps) (get_bytes_per_pixel : PixelType → ℕ) where
  open ops use {is_non_empty, intersect}

  -- The copying of the part of the source that meets the destination.
  pub copy_intersection : Bitmap → Bitmap → ℤ → ℤ → IntRect → Outcome Bitmap
  copy_intersection destination source x_offset y_offset intersection = do
    let bytes_per_pel = get_bytes_per_pixel source.pixel_type
    let destination_offset =
        to_size intersection.y * destination.stride + to_size intersection.x * bytes_per_pel
    let source_offset =
        to_size (max_ℤ (pos 0 -ℤ y_offset) (pos 0)) * source.stride
        + to_size (max_ℤ (pos 0 -ℤ x_offset) (pos 0)) * bytes_per_pel
    let line_length = bytes_per_pel * to_size intersection.w
    memory ←
        copy_lines (pos_part intersection.h) destination.memory destination.size destination_offset
          destination.stride source.memory source.size source_offset source.stride line_length
    ok (record destination { memory = memory })

  pub copy_at : Bitmap → Bitmap → ℤ → ℤ → Outcome Bitmap
  copy_at destination source x_offset y_offset = do
    source_width ← narrow_int source.width
    source_height ← narrow_int source.height
    destination_width ← narrow_int destination.width
    destination_height ← narrow_int destination.height
    let source_roi : IntRect = record {
      x = x_offset;
      y = y_offset;
      w = source_width;
      h = source_height;
    }
    let destination_roi : IntRect = record {
      x = pos 0;
      y = pos 0;
      w = destination_width;
      h = destination_height;
    }
    let intersection = intersect source_roi destination_roi
    if is_non_empty intersection
        then copy_intersection destination source x_offset y_offset intersection
        else ok destination

-- What the source does with a `float`. `rounded` is `f + .5f` cut to an integer, and `float_bytes`
-- are the four bytes of the number in memory.
pub record FloatOps : Type 1 where
  pub Float : Type 0
  pub is_nan : Float → Bool
  pub add : Float → Float → Float
  pub times : ℕ → Float → Float
  pub third : Float → Float
  pub at_most_zero : Float → Bool
  pub at_least : Float → ℕ → Bool
  pub rounded : Float → ℕ
  pub float_bytes : Float → ℕ × ℕ × ℕ × ℕ

module _ (floats : FloatOps) where
  open floats use {Float, is_nan, add, times, third, at_most_zero, at_least, rounded, float_bytes}

  pub record RgbFloatColor : Type 0 where
    pub r : Float
    pub g : Float
    pub b : Float

  -- `clampToByte` and `clampToUShort`, for the limits 255 and 65535.
  unfoldable pub clamp_to : ℕ → Float → ℕ
  clamp_to limit f = if at_most_zero f then 0 else if at_least f limit then limit else rounded f

  -- The two bytes of a 16-bit number, the lower one first.
  abbrev pub low_first : ℕ → List ℕ → List ℕ
  low_first n bytes = (n % 256) ∷ (n / 256) ∷ bytes

  -- The bytes of a pixel of the colour. The other pixel types are not supported.
  unfoldable pub pixel_of : PixelType → RgbFloatColor → Outcome (List ℕ)
  unfolding clamp_to
  pixel_of PixelType.gray8 color =
      ok (clamp_to 255 (third (times 255 (add (add color.r color.g) color.b))) ∷ [])
  pixel_of PixelType.gray16 color =
      ok (low_first (clamp_to 65535 (third (times 65535 (add (add color.r color.g) color.b)))) [])
  pixel_of PixelType.gray32_float color =
      let (b0, b1, b2, b3) = float_bytes (third (add (add color.r color.g) color.b)) in
      ok (b0 ∷ b1 ∷ b2 ∷ b3 ∷ [])
  pixel_of PixelType.bgr24 color = ok (
      clamp_to 255 (times 255 color.b)
      ∷ clamp_to 255 (times 255 color.g)
      ∷ clamp_to 255 (times 255 color.r)
      ∷ [])
  pixel_of PixelType.bgr48 color = ok (
      low_first (clamp_to 65535 (times 65535 color.b)) (
        low_first (clamp_to 65535 (times 65535 color.g))
          (low_first (clamp_to 65535 (times 65535 color.r)) [])))
  pixel_of PixelType.gray32 color = err runtime_error
  pixel_of PixelType.bgra32 color = err runtime_error
  pixel_of PixelType.other color = err runtime_error

  -- A line of pixels, each of which is stored at the pointer that then goes on by a pixel: copying
  -- from the bytes of one pixel, again and again.
  abbrev pub byte_at : List ℕ → ℕ → ℕ
  byte_at [] i = 0
  byte_at (x ∷ xs) zero = x
  byte_at (x ∷ xs) (suc i) = byte_at xs i

  unfoldable pub fill_line : Memory → ℕ → ℕ → ℕ → List ℕ → Outcome Memory
  fill_line memory size offset width pixel =
      copy_lines width memory size offset (length pixel) (byte_at pixel) (length pixel) 0 0
        (length pixel)

  unfoldable pub fill_lines : ℕ → Memory → ℕ → ℕ → ℕ → ℕ → List ℕ → Outcome Memory
  unfolding fill_line
  fill_lines zero memory size offset stride width pixel = ok memory
  fill_lines (suc count) memory size offset stride width pixel = do
    filled ← fill_line memory size offset width pixel
    fill_lines count filled size (offset + stride) stride width pixel

  unfoldable pub fill : Bitmap → RgbFloatColor → Outcome Bitmap
  unfolding pixel_of fill_lines
  fill bitmap color = do
    pixel ← pixel_of bitmap.pixel_type color
    memory ← fill_lines bitmap.height bitmap.memory bitmap.size 0 bitmap.stride bitmap.width pixel
    ok (record bitmap { memory = memory })

module _ (ops : RectOps) (get_bytes_per_pixel : PixelType → ℕ) where
  -- The loop over what `get_bitmap` gives.
  unfoldable pub copy_all : List (Placement Bitmap) → Bitmap → Outcome Bitmap
  unfolding copy_at
  copy_all [] destination = ok destination
  copy_all (p ∷ placements) destination = do
    copied ← copy_at ops get_bytes_per_pixel destination p.bitmap p.x p.y
    copy_all placements copied

  -- The filling is left out where a component of the colour is no number.
  unfoldable pub compose :
      (floats : FloatOps)
      → Memory
      → IntRect
      → PixelType
      → RgbFloatColor floats
      → List (Placement Bitmap)
      → Outcome Bitmap
  unfolding copy_all fill
  compose floats uninitialized roi pixel_type background_color placements = do
    created ← create_bitmap_data uninitialized pixel_type (to_u32 roi.w) (to_u32 roi.h)
    destination ←
        if not (floats.is_nan background_color.r)
          && not (floats.is_nan background_color.g)
          && not (floats.is_nan background_color.b)
        then fill floats created background_color
        else ok created
    copy_all placements destination
