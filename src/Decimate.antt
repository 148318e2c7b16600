-- ===== src/Decimate.antt =====
-- libpyramidizer/src/imaging/decimate_opencv.cpp and opencvutils.cpp: a bitmap of half the extents.
-- OpenCV's matrix over a bitmap's memory is the bitmap's own data; what `cv::pyrDown` leaves in the
-- destination's memory is a parameter. Making a matrix does not fail: libCZI's strides are at least
-- as long as the lines.
pub mod Halved
use czi_pyramidizer.Prelude.{ℕ, ◌/◌}
use czi_pyramidizer.Prelude.Int.{ℤ, pos, pos_part}
use czi_pyramidizer.Prelude.Words.{to_u32}
use czi_pyramidizer.Prelude.Outcome.{Outcome, ok, err, invalid_argument, ◌>>=◌}
use czi_pyramidizer.Bitmap.{PixelType, Memory, Bitmap, create_bitmap_data}
use czi_pyramidizer.Compose.{narrow_int}

-- OpenCV's matrix types that the source names.
pub data MatType : Type 0 where
  cv_8uc1 cv_16uc1 cv_8uc3 cv_8uc4 : MatType

-- `libCZIPixelTypeToOpenCv`.
unfoldable pub pixel_type_to_open_cv : PixelType → Outcome MatType
pixel_type_to_open_cv PixelType.gray8 = ok cv_8uc1
pixel_type_to_open_cv PixelType.gray16 = ok cv_16uc1
pixel_type_to_open_cv PixelType.bgr24 = ok cv_8uc3
pixel_type_to_open_cv PixelType.bgra32 = ok cv_8uc4
pixel_type_to_open_cv _ = err invalid_argument

-- A `cv::Mat` over memory that it does not own.
pub record Mat : Type 0 where
  pub rows : ℤ
  pub cols : ℤ
  pub type : MatType
  pub memory : Memory
  pub step : ℕ

-- `cv::pyrDown` with the border replicated: the source and the destination, and the size of the
-- destination.
abbrev pub PyrDown : Type 0
PyrDown = Mat → Mat → ℤ → ℤ → Outcome Memory

module _ (pyr_down : PyrDown) (uninitialized : Memory) where
  unfoldable pub decimate : Bitmap → Outcome Bitmap
  unfolding pixel_type_to_open_cv
  decimate source = do
    destination_width ← narrow_int (source.width / 2)
    destination_height ← narrow_int (source.height / 2)
    open_cv_pixel_type ← pixel_type_to_open_cv source.pixel_type
    destination ←
        create_bitmap_data uninitialized source.pixel_type (to_u32 destination_width)
          (to_u32 destination_height)
    source_rows ← narrow_int source.height
    source_cols ← narrow_int source.width
    destination_rows ← narrow_int destination.height
    destination_cols ← narrow_int destination.width
    let source_image : Mat = record {
      rows = source_rows;
      cols = source_cols;
      type = open_cv_pixel_type;
      memory = source.memory;
      step = source.stride;
    }
    let destination_image : Mat = record {
      rows = destination_rows;
      cols = destination_cols;
      type = open_cv_pixel_type;
      memory = destination.memory;
      step = destination.stride;
    }
    decimated ← pyr_down source_image destination_image destination_width destination_height
    ok (record destination { memory = decimated })
