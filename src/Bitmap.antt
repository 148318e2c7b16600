-- ===== src/Bitmap.antt =====
-- libpyramidizer/src/imaging/bitmapdata.h: bitmaps in memory. An `IBitmapData` is what its methods
-- give: the pixel type, the extents and, for a lock, the stride and the bytes. A byte is a number,
-- and the memory of a bitmap a function of the offset, of which `size` bytes are allocated.
-- Reading or writing past them is the error `out_of_bounds`. Sums of offsets do not wrap here: they
-- are `std::size_t`s inside one allocation, or that error. Locking only counts locks,
-- and an allocation never fails.
pub mod Layout
pub mod Create
use czi_pyramidizer.Prelude.{
  ℕ, zero, suc, ◌+◌, ◌-◌, ◌*◌, ◌%◌, ◌/◌, Option, none, some, ltb, leb, if◌then◌else◌, ◌&&◌,
}
use czi_pyramidizer.Prelude.Words.{u32_mod}
use czi_pyramidizer.Prelude.Outcome.{Outcome, ok, err, runtime_error, out_of_bounds, ◌>>=◌}

-- libCZI's pixel types that the source names; `other` is any further one.
pub data PixelType : Type 0 where
  gray8 gray16 gray32_float bgr24 bgr48 gray32 bgra32 other : PixelType

abbrev pub Memory : Type 0
Memory = ℕ → ℕ

pub record Bitmap : Type 0 where
  pub pixel_type : PixelType
  pub width : ℕ
  pub height : ℕ
  pub stride : ℕ
  pub size : ℕ
  pub memory : Memory

-- The switch in the constructor; the other pixel types are not supported.
unfoldable pub bytes_per_pel : PixelType → Outcome ℕ
bytes_per_pel PixelType.bgr24 = ok 3
bytes_per_pel PixelType.bgr48 = ok 6
bytes_per_pel PixelType.gray8 = ok 1
bytes_per_pel PixelType.gray16 = ok 2
bytes_per_pel PixelType.gray32_float = ok 4
bytes_per_pel PixelType.gray32 = ok 4
bytes_per_pel PixelType.bgra32 = err runtime_error
bytes_per_pel PixelType.other = err runtime_error

-- Lines of 24-bit pixels are padded to a multiple of four bytes.
unfoldable pub line_stride : PixelType → ℕ → ℕ → ℕ
line_stride PixelType.bgr24 width bytes = (width * bytes % u32_mod + 3) % u32_mod / 4 * 4 % u32_mod
line_stride _ width bytes = width * bytes % u32_mod

-- The destination's memory after `count` bytes have been copied.
abbrev pub copied : Memory → ℕ → Memory → ℕ → ℕ → Memory
copied dest dest_offset source source_offset count i =
    if leb dest_offset i && ltb i (dest_offset + count)
    then source (source_offset + (i - dest_offset))
    else dest i

-- `memcpy` from one allocation to another.
unfoldable pub memcpy : Memory → ℕ → ℕ → Memory → ℕ → ℕ → ℕ → Outcome Memory
memcpy dest dest_size dest_offset source source_size source_offset count =
    if leb (dest_offset + count) dest_size && leb (source_offset + count) source_size
    then ok (copied dest dest_offset source source_offset count)
    else err out_of_bounds

-- Lines copied one after the other: `count` rounds of a `memcpy` of one line, after which both
-- pointers go on by their strides.
unfoldable pub copy_lines : ℕ → Memory → ℕ → ℕ → ℕ → Memory → ℕ → ℕ → ℕ → ℕ → Outcome Memory
copy_lines zero dest dest_size dest_offset dest_stride source source_size source_offset
      source_stride line_length =
    ok dest
copy_lines (suc count) dest dest_size dest_offset dest_stride source source_size source_offset
      source_stride line_length =
    do
      copied ← memcpy dest dest_size dest_offset source source_size source_offset line_length
      copy_lines count copied dest_size (dest_offset + dest_stride) dest_stride source source_size
          (source_offset + source_stride) source_stride line_length

-- The data that the constructor may be given: bytes, how many there are, and their stride.
pub record DataToCopy : Type 0 where
  pub bytes : Memory
  pub count : ℕ
  pub data_to_copy_stride : ℕ

-- The constructor of `CBitmapData`. `uninitialized` is what `malloc` returns.
unfoldable pub create_bitmap : Memory → PixelType → ℕ → ℕ → Option DataToCopy → Outcome Bitmap
create_bitmap uninitialized pixeltype width height data_to_copy = do
  bytes ← bytes_per_pel pixeltype
  let stride = line_stride pixeltype width bytes
  let size = stride * height
  memory ← elim data_to_copy [
    | none ↦ ok uninitialized
    | some d ↦
        copy_lines height uninitialized size 0 stride d.bytes d.count 0 d.data_to_copy_stride
          (bytes * width)
  ]
  ok (record {
    pixel_type = pixeltype;
    width = width;
    height = height;
    stride = stride;
    size = size;
    memory = memory;
  })

-- `CBitmapData::CreateBitmapData`.
unfoldable pub create_bitmap_data : Memory → PixelType → ℕ → ℕ → Outcome Bitmap
create_bitmap_data uninitialized pixel_type width height =
    create_bitmap uninitialized pixel_type width height none
