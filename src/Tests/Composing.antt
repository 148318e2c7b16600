-- ===== src/Tests/Composing.antt =====
-- Composing and decimating, instantiated with numbers for the floating-point ones.
use czi_pyramidizer.Prelude.{
  ℕ, ◌+◌, ◌*◌, ◌/◌, ◌≡◌, refl, ◌⊎◌, arith, List, [], ◌∷◌, false, ◌==◌, leb,
}
use czi_pyramidizer.Prelude.Int.{pos, negsuc, ◌+ℤ◌, ◌-ℤ◌}
use czi_pyramidizer.Prelude.Outcome.{ok, err, invalid_argument, runtime_error}
use czi_pyramidizer.Bitmap.{PixelType, Memory, Bitmap}
use czi_pyramidizer.Imaging.{Imaging, Placement}
use czi_pyramidizer.Imaging.Bitmaps.{bitmaps}
use czi_pyramidizer.Compose.{FloatOps, RgbFloatColor, pixel_of, byte_at, compose}
use czi_pyramidizer.Compose.Blend.{IsLaidOut, pixel_offset}
use czi_pyramidizer.Compose.Layered.{layered, blank_bitmap, compose-layered}
use czi_pyramidizer.Decimate.{MatType, PyrDown, decimate}
use czi_pyramidizer.Decimate.Halved.{Works, CanHalve, gray8, gray16, bgr24, decimate_answer}
use czi_pyramidizer.Tests.Ops.{rect, concrete_ops}

abbrev pub whole_numbers : FloatOps
whole_numbers = record {
  Float = ℕ;
  is_nan = λ f. false;
  add = λ f g. f + g;
  times = λ n f. n * f;
  third = λ f. f / 3;
  at_most_zero = λ f. f == 0;
  at_least = λ f n. leb n f;
  rounded = λ f. f;
  float_bytes = λ f. (f, 0, 0, 0);
}

abbrev pub white : RgbFloatColor whole_numbers
white = record { r = 1; g = 1; b = 1 }

abbrev pub sizes : PixelType → ℕ
sizes PixelType.gray8 = 1
sizes PixelType.gray16 = 2
sizes PixelType.bgr24 = 3
sizes PixelType.bgr48 = 6
sizes PixelType.gray32_float = 4
sizes PixelType.gray32 = 4
sizes PixelType.bgra32 = 4
sizes PixelType.other = 0

abbrev pub zeros : Memory
zeros i = 0

-- Four gray pixels, in two lines.
abbrev gray : Bitmap
gray = record {
  pixel_type = PixelType.gray8;
  width = 2;
  height = 2;
  stride = 2;
  size = 4;
  memory = λ i. 10 + i;
}

abbrev placed : List (Placement Bitmap)
placed = record { bitmap = gray; x = negsuc 0; y = pos 1 } ∷ []

white_pixel : pixel_of whole_numbers PixelType.gray8 white ≡ ok (255 ∷ [])
unfolding pixel_of
white_pixel = refl

compose-layered_example :
    (m : Memory) × (compose concrete_ops sizes whole_numbers zeros
        (rect (pos 5) (pos 6) (pos 3) (pos 2))
        PixelType.gray8
        white
        placed
      ≡ ok (blank_bitmap m PixelType.gray8 1 3 2))
    × (m (pixel_offset 1 (blank_bitmap m PixelType.gray8 1 3 2) 0 1 0)
        ≡ layered 1 placed 0 1 0 (byte_at whole_numbers (255 ∷ []) 0))
compose-layered_example =
    compose-layered concrete_ops sizes whole_numbers zeros PixelType.gray8 white (255 ∷ []) (pos 5)
      (pos 6) 3 2 placed 0 1 0 refl refl refl white_pixel (omega arith) (omega arith) (omega arith)
      ((refl, omega arith), tt) (omega arith) (omega arith) (omega arith)

-- The pixel is the bitmap's second one, which is the one that covers it.
covered : layered 1 placed 0 1 0 255 ≡ 11
unfolding ◌+ℤ◌ ◌-ℤ◌
covered = refl

abbrev pub first_pixels : PyrDown
first_pixels source destination width height = ok source.memory

pub first_pixels-Works : Works first_pixels
first_pixels-Works = record {
  returns = λ source destination width height _ _ _ _ _ _ _ _ _ _ _. (source.memory, refl);
}

pub sizes_agree : (t : PixelType) (m : MatType) (k : ℕ) → CanHalve t m k → sizes t ≡ k
sizes_agree t m k h = agree h
  where
    agree : {t : PixelType} {m : MatType} {k : ℕ} → CanHalve t m k → sizes t ≡ k
    agree gray8 = refl
    agree gray16 = refl
    agree bgr24 = refl

decimate_answer_example :
    ((m : MatType) × (k : ℕ) × CanHalve PixelType.gray8 m k
      × ((d : Bitmap) × (decimate first_pixels zeros gray ≡ ok d)
          × IsLaidOut k d
          × (d.pixel_type ≡ PixelType.gray8)
          × (d.width ≡ 2 / 2)
          × (d.height ≡ 2 / 2)))
    ⊎ (((m : MatType) (k : ℕ) → ¬ CanHalve PixelType.gray8 m k)
        × ((decimate first_pixels zeros gray ≡ err invalid_argument)
            ⊎ (decimate first_pixels zeros gray ≡ err runtime_error)))
decimate_answer_example =
    decimate_answer first_pixels zeros sizes gray first_pixels-Works sizes_agree (omega arith)
      (omega arith) (omega arith)

-- The layers' image processing with the functions of the source.
abbrev pub real : Imaging
real =
    bitmaps concrete_ops sizes whole_numbers zeros white first_pixels refl refl refl
      first_pixels-Works sizes_agree
