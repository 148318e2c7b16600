-- ===== src/Bitmap/Create.antt =====
-- What the constructor of `CBitmapData` makes.
use czi_pyramidizer.Prelude.{subst, ℕ, ◌+◌, ◌*◌, ◌≤◌, ◌<◌, ◌≡◌, refl, ap, ◌∙◌, some, arith}
use czi_pyramidizer.Prelude.Words.{u32_mod}
use czi_pyramidizer.Prelude.Outcome.{ok}
use czi_pyramidizer.Bitmap.{
  PixelType, Memory, Bitmap, DataToCopy, bytes_per_pel, line_stride, create_bitmap,
}
use czi_pyramidizer.Bitmap.Layout.{LinesFit, LinesFit-rows, copy_lines-IsCopied}

-- A line holds its pixels.
pub line_stride-enough :
    (t : PixelType) (width bytes : ℕ)
    → width * bytes + 3 < u32_mod
    → width * bytes ≤ line_stride t width bytes
unfolding line_stride
line_stride-enough PixelType.bgr24 width bytes h = omega arith
line_stride-enough PixelType.gray8 width bytes h = omega arith
line_stride-enough PixelType.gray16 width bytes h = omega arith
line_stride-enough PixelType.gray32_float width bytes h = omega arith
line_stride-enough PixelType.bgr48 width bytes h = omega arith
line_stride-enough PixelType.gray32 width bytes h = omega arith
line_stride-enough PixelType.bgra32 width bytes h = omega arith
line_stride-enough PixelType.other width bytes h = omega arith

lines_fit :
    (count n stride size : ℕ) → n ≤ stride → stride * count ≤ size → LinesFit count size 0 stride n
lines_fit count n stride size h k =
    subst (λ o. LinesFit count size o stride n) (omega arith)
      (LinesFit-rows count 0 count 0 n stride size (omega arith) (omega arith) k)

-- A bitmap of the pixel type and extents, whose lines lie in its memory.
pub record IsCreated (t : PixelType) (width height bytes : ℕ) (b : Bitmap) : Type 0 where
  pub type_is : b.pixel_type ≡ t
  pub width_is : b.width ≡ width
  pub height_is : b.height ≡ height
  pub lines : width * bytes ≤ b.stride
  pub rows : b.stride * height ≤ b.size

-- Given lines that hold the pixels, the constructor returns a bitmap of the type and the extents,
-- accesses nothing out of bounds, and each byte of each line is that of the given data. The
-- conditions: the pixel type is supported, and a line's size does not wrap.
pub create_bitmap-IsCreated :
    (uninitialized : Memory) (t : PixelType) (width height bytes : ℕ) (d : DataToCopy)
    → bytes_per_pel t ≡ ok bytes
    → width * bytes + 3 < u32_mod
    → bytes * width ≤ d.data_to_copy_stride
    → d.data_to_copy_stride * height ≤ d.count
    → (b : Bitmap) × (create_bitmap uninitialized t width height (some d) ≡ ok b)
      × IsCreated t width height bytes b
      × ((y i : ℕ)
          → y < height
          → i < bytes * width
          → b.memory (y * b.stride + i) ≡ d.bytes (y * d.data_to_copy_stride + i))
unfolding create_bitmap
create_bitmap-IsCreated uninitialized t width height bytes d supported narrow lines rows =
    let stride : ℕ = line_stride t width bytes in
    let enough = line_stride-enough t width bytes narrow in
    let (m, e, c) =
      copy_lines-IsCopied (stride * height) stride d.bytes d.count d.data_to_copy_stride
        (bytes * width) (omega (arith, enough)) height uninitialized 0 0
        (lines_fit height (bytes * width) stride (stride * height) (omega (arith, enough))
          (omega arith))
        (lines_fit height (bytes * width) d.data_to_copy_stride d.count lines rows) in
    (
      record {
        pixel_type = t;
        width = width;
        height = height;
        stride = stride;
        size = stride * height;
        memory = m;
      },
      rw (supported, e) refl,
      record {
        type_is = refl;
        width_is = refl;
        height_is = refl;
        lines = enough;
        rows = omega arith;
      },
      λ y i hy hi. ap m (omega arith) ∙ c.inside y i hy hi ∙ ap d.bytes (omega arith),
    )
