-- ===== src/Imaging.antt =====
-- What the pyramid code asks of the image processing: the interface between the building of the
-- layers (UpperPyramidLayersPyramidizer.cpp, do_pyramidize.cpp) and `ComposeBitmaps::Compose`,
-- `IDecimationProcessing::Decimate` and libCZI's tile accessor.
pub mod Bitmaps
use czi_pyramidizer.Prelude.{ℕ, ◌*◌, ◌/◌, ◌≤◌, ◌<◌, ◌≡◌, List, [], ◌∷◌}
use czi_pyramidizer.Prelude.Int.{ℤ, pos_part}
use czi_pyramidizer.Prelude.Words.{int_limit}
use czi_pyramidizer.Prelude.Outcome.{Outcome, ok}
use czi_pyramidizer.Rect.{IntRect, IsNonEmpty}
use czi_pyramidizer.Bitmap.{PixelType}

-- A bitmap and the position at which it is put.
pub record Placement (B : Type 0) : Type 0 where
  pub bitmap : B
  pub x : ℤ
  pub y : ℤ

abbrev pub AllPlaced : {B : Type 0} → (B → Type 0) → List (Placement B) → Type 0
AllPlaced P [] = Unit
AllPlaced P (p ∷ placements) = P p.bitmap × AllPlaced P placements

-- `IsOf t b` says that b is a proper bitmap of the pixel type t, one of those that are supported.
-- The background colour is fixed in one run, and so is the plane of the tile accessor.
pub record Imaging : Type 1 where
  pub Image : Type 0
  pub width : Image → ℕ
  pub height : Image → ℕ
  pub pixel_type : Image → PixelType
  pub Supports : PixelType → Type 0
  pub IsOf : PixelType → Image → Type 0
  pub compose : IntRect → PixelType → List (Placement Image) → Outcome Image
  pub decimate : Image → Outcome Image
  pub IsOf-pixel_type : (t : PixelType) (b : Image) → IsOf t b → pixel_type b ≡ t
  pub IsOf-Supports : (t : PixelType) (b : Image) → IsOf t b → Supports t
  -- Composing gives a bitmap of the extents of the rectangle, which is at most half as wide and as
  -- high as an `int` allows, so that the size of a line does not wrap.
  pub compose_returns :
      (roi : IntRect) (t : PixelType) (placements : List (Placement Image))
      → Supports t
      → IsNonEmpty roi
      → pos_part roi.w * 2 < int_limit
      → pos_part roi.h * 2 < int_limit
      → AllPlaced (IsOf t) placements
      → (b : Image) × (compose roi t placements ≡ ok b)
        × IsOf t b
        × (width b ≡ pos_part roi.w)
        × (height b ≡ pos_part roi.h)
  -- Decimating halves the extents.
  pub decimate_returns :
      (t : PixelType) (b : Image)
      → IsOf t b
      → 2 ≤ width b
      → 2 ≤ height b
      → (d : Image) × (decimate b ≡ ok d)
        × IsOf t d
        × (width d ≡ width b / 2)
        × (height d ≡ height b / 2)
