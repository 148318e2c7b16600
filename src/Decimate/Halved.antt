-- ===== src/Decimate/Halved.antt =====
-- Which bitmaps are decimated, and what becomes of them.
use czi_pyramidizer.Prelude.{
  ℕ, ◌+◌, ◌*◌, ◌/◌, ◌≤◌, ◌<◌, ◌≡◌, refl, sym, subst, ◌⊎◌, inl, inr, arith,
}
use czi_pyramidizer.Prelude.Int.{pos, pos_part}
use czi_pyramidizer.Prelude.Words.{int_limit, u32_mod, to_u32-pos}
use czi_pyramidizer.Prelude.Outcome.{ok, err, invalid_argument, runtime_error}
use czi_pyramidizer.Bitmap.{
  PixelType, Memory, Bitmap, bytes_per_pel, line_stride, create_bitmap, create_bitmap_data,
}
use czi_pyramidizer.Compose.Blend.{IsLaidOut, narrow_int-ok}
use czi_pyramidizer.Compose.Layered.{blank_bitmap, create_bitmap_data_lem, blank-IsLaidOut}
use czi_pyramidizer.Decimate.{
  MatType, cv_8uc1, cv_16uc1, cv_8uc3, cv_8uc4, Mat, PyrDown, pixel_type_to_open_cv, decimate,
}

-- The matrix has as many bytes to a pixel as the type says, in lines that hold its columns.
abbrev pub element_size : MatType → ℕ
element_size cv_8uc1 = 1
element_size cv_16uc1 = 2
element_size cv_8uc3 = 3
element_size cv_8uc4 = 4

abbrev pub HoldsColumns : Mat → Type 0
HoldsColumns m = pos_part m.cols * element_size m.type ≤ m.step

-- What is documented of `cv::pyrDown`: it works on matrices of one type whose lines hold their
-- columns and that are not empty, where the size is the destination's and its double differs from
-- the source's extents by two at most.
pub record Works (pyr_down : PyrDown) : Type 0 where
  pub returns :
      (source destination : Mat) (width height : ℕ)
      → source.type ≡ destination.type
      → HoldsColumns source
      → HoldsColumns destination
      → destination.cols ≡ pos width
      → destination.rows ≡ pos height
      → 1 ≤ width
      → 1 ≤ height
      → pos_part source.cols ≤ 2 * width + 2
      → 2 * width ≤ pos_part source.cols + 2
      → pos_part source.rows ≤ 2 * height + 2
      → 2 * height ≤ pos_part source.rows + 2
      → (m : Memory) × (pyr_down source destination (pos width) (pos height) ≡ ok m)

-- The pixel types that a decimation takes, with the sizes of their pixels.
pub data CanHalve : PixelType → MatType → ℕ → Type 0 where
  gray8 : CanHalve PixelType.gray8 cv_8uc1 1
  gray16 : CanHalve PixelType.gray16 cv_16uc1 2
  bgr24 : CanHalve PixelType.bgr24 cv_8uc3 3

can_bytes : {t : PixelType} {m : MatType} {k : ℕ} → CanHalve t m k → bytes_per_pel t ≡ ok k
unfolding bytes_per_pel
can_bytes gray8 = refl
can_bytes gray16 = refl
can_bytes bgr24 = refl

can_mat : {t : PixelType} {m : MatType} {k : ℕ} → CanHalve t m k → pixel_type_to_open_cv t ≡ ok m
unfolding pixel_type_to_open_cv
can_mat gray8 = refl
can_mat gray16 = refl
can_mat bgr24 = refl

can_size : {t : PixelType} {m : MatType} {k : ℕ} → CanHalve t m k → (element_size m ≡ k) × (k ≤ 3)
can_size gray8 = (refl, omega arith)
can_size gray16 = (refl, omega arith)
can_size bgr24 = (refl, omega arith)

half_columns : (w k : ℕ) → k ≤ 3 → w < int_limit → w / 2 * k + 3 < u32_mod
half_columns w k h l = grind arith

abbrev source_mat : Bitmap → MatType → Mat
source_mat source m = record {
  rows = pos source.height;
  cols = pos source.width;
  type = m;
  memory = source.memory;
  step = source.stride;
}

abbrev blank_mat : Memory → PixelType → MatType → ℕ → ℕ → ℕ → Mat
blank_mat uninitialized t m k w h = record {
  rows = pos h;
  cols = pos w;
  type = m;
  memory = uninitialized;
  step = line_stride t w k;
}

-- With a `cv::pyrDown` that works as documented, a bitmap of a type that can be halved, laid out in
-- its memory and two pixels wide and high at least, is decimated to a bitmap of the same type with
-- half the extents, rounded down, which is laid out too.
pub decimate_lem :
    (pyr_down : PyrDown) (uninitialized : Memory) (source : Bitmap) (m : MatType) (k : ℕ)
    → Works pyr_down
    → CanHalve source.pixel_type m k
    → IsLaidOut k source
    → 2 ≤ source.width
    → 2 ≤ source.height
    → (d : Bitmap) × (decimate pyr_down uninitialized source ≡ ok d)
      × IsLaidOut k d
      × (d.pixel_type ≡ source.pixel_type)
      × (d.width ≡ source.width / 2)
      × (d.height ≡ source.height / 2)
unfolding decimate
decimate_lem pyr_down uninitialized source m k works can laid w2 h2 =
    let w : ℕ = source.width / 2 in
    let h : ℕ = source.height / 2 in
    let (size_is, small) = can_size can in
    let narrow = half_columns source.width k small laid.width_int in
    let blank =
      blank-IsLaidOut uninitialized source.pixel_type k w h narrow (omega (arith, laid.width_int))
        (omega (arith, laid.height_int)) in
    let (memory, e) =
      works.returns (source_mat source m) (blank_mat uninitialized source.pixel_type m k w h) w h
        refl (subst (λ n. source.width * n ≤ source.stride) (sym size_is) laid.lines)
        (subst (λ n. w * n ≤ line_stride source.pixel_type w k) (sym size_is) blank.lines) refl refl
        (omega arith) (omega arith) (omega arith) (omega arith) (omega arith) (omega arith) in
    (
      blank_bitmap memory source.pixel_type k w h,
      rw (
        decimate,
        narrow_int-ok w (omega (arith, laid.width_int)),
        narrow_int-ok h (omega (arith, laid.height_int)),
        can_mat can,
        to_u32-pos w (omega (arith, laid.width_int)),
        to_u32-pos h (omega (arith, laid.height_int)),
        create_bitmap_data_lem uninitialized source.pixel_type k w h (can_bytes can),
        narrow_int-ok source.height laid.height_int,
        narrow_int-ok source.width laid.width_int,
        narrow_int-ok h (omega (arith, laid.height_int)),
        narrow_int-ok w (omega (arith, laid.width_int)),
        e,
      ),
      blank-IsLaidOut memory source.pixel_type k w h narrow (omega (arith, laid.width_int))
          (omega (arith, laid.height_int)),
      refl,
      refl,
      refl,
    )

refused_type :
    (t : PixelType)
    → ((m : MatType) (k : ℕ) → ¬ CanHalve t m k)
    → (pixel_type_to_open_cv t ≡ err invalid_argument)
      ⊎ ((pixel_type_to_open_cv t ≡ ok cv_8uc4) × (bytes_per_pel t ≡ err runtime_error))
unfolding pixel_type_to_open_cv bytes_per_pel
refused_type PixelType.gray8 h = absurd (h cv_8uc1 1 gray8)
refused_type PixelType.gray16 h = absurd (h cv_16uc1 2 gray16)
refused_type PixelType.bgr24 h = absurd (h cv_8uc3 3 bgr24)
refused_type PixelType.bgra32 h = inr (refl, refl)
refused_type PixelType.gray32_float h = inl refl
refused_type PixelType.bgr48 h = inl refl
refused_type PixelType.gray32 h = inl refl
refused_type PixelType.other h = inl refl

no_bitmap :
    (uninitialized : Memory) (t : PixelType) (w h : ℕ)
    → bytes_per_pel t ≡ err runtime_error
    → create_bitmap_data uninitialized t w h ≡ err runtime_error
unfolding create_bitmap_data create_bitmap
no_bitmap uninitialized t w h e = rw (create_bitmap_data, create_bitmap, e)

-- The other pixel types are refused by an exception, those with 16 bits for each of three channels
-- and the floating-point ones by OpenCV's table, and the one with an alpha channel by the bitmap.
pub decimate_refuses :
    (pyr_down : PyrDown) (uninitialized : Memory) (source : Bitmap)
    → source.width < int_limit
    → source.height < int_limit
    → ((m : MatType) (k : ℕ) → ¬ CanHalve source.pixel_type m k)
    → (decimate pyr_down uninitialized source ≡ err invalid_argument)
      ⊎ (decimate pyr_down uninitialized source ≡ err runtime_error)
unfolding decimate
decimate_refuses pyr_down uninitialized source w h none_can =
    elim (refused_type source.pixel_type none_can) [
      | inl unknown ↦ inl (
          rw (
            decimate,
            narrow_int-ok (source.width / 2) (omega arith),
            narrow_int-ok (source.height / 2) (omega arith),
            unknown,
          ))
      | inr (known, no_size) ↦ inr (
          rw (
            decimate,
            narrow_int-ok (source.width / 2) (omega arith),
            narrow_int-ok (source.height / 2) (omega arith),
            known,
            no_bitmap uninitialized source.pixel_type _ _ no_size,
          ))
    ]

can_or_not :
    (t : PixelType)
    → ((m : MatType) × (k : ℕ) × CanHalve t m k) ⊎ ((m : MatType) (k : ℕ) → ¬ CanHalve t m k)
can_or_not PixelType.gray8 = inl (cv_8uc1, 1, gray8)
can_or_not PixelType.gray16 = inl (cv_16uc1, 2, gray16)
can_or_not PixelType.bgr24 = inl (cv_8uc3, 3, bgr24)
can_or_not PixelType.bgra32 = inr (λ m k h. elim h [ ])
can_or_not PixelType.gray32_float = inr (λ m k h. elim h [ ])
can_or_not PixelType.bgr48 = inr (λ m k h. elim h [ ])
can_or_not PixelType.gray32 = inr (λ m k h. elim h [ ])
can_or_not PixelType.other = inr (λ m k h. elim h [ ])

-- A laid out bitmap, two pixels wide and high at least: with 8 or 16 bits of gray or 24 bits of
-- colour it is decimated to a laid out bitmap of the same type with half the extents, rounded down;
-- of any other type it is refused by an exception. `cv::pyrDown` works as documented, and libCZI's
-- sizes of pixels are those of OpenCV.
pub decimate_answer :
    (pyr_down : PyrDown) (uninitialized : Memory) (get_bytes_per_pixel : PixelType → ℕ)
    (source : Bitmap)
    → Works pyr_down
    → ((t : PixelType) (m : MatType) (k : ℕ) → CanHalve t m k → get_bytes_per_pixel t ≡ k)
    → IsLaidOut (get_bytes_per_pixel source.pixel_type) source
    → 2 ≤ source.width
    → 2 ≤ source.height
    → ((m : MatType) × (k : ℕ) × CanHalve source.pixel_type m k
        × ((d : Bitmap) × (decimate pyr_down uninitialized source ≡ ok d)
            × IsLaidOut k d
            × (d.pixel_type ≡ source.pixel_type)
            × (d.width ≡ source.width / 2)
            × (d.height ≡ source.height / 2)))
      ⊎ (((m : MatType) (k : ℕ) → ¬ CanHalve source.pixel_type m k)
          × ((decimate pyr_down uninitialized source ≡ err invalid_argument)
              ⊎ (decimate pyr_down uninitialized source ≡ err runtime_error)))
decimate_answer pyr_down uninitialized get_bytes_per_pixel source works sizes laid w2 h2 =
    elim (can_or_not source.pixel_type) [
      | inl (m, k, can) ↦ inl (
        m,
        k,
        can,
        decimate_lem pyr_down uninitialized source m k works can
            (subst (λ n. IsLaidOut n source) (sizes source.pixel_type m k can) laid) w2 h2,
      )
      | inr none_can ↦ inr (
        none_can,
        decimate_refuses pyr_down uninitialized source laid.width_int laid.height_int none_can,
      )
    ]
